-- ===== src/Config/Merge.antt =====
-- The merge of daemon/config.py, read path by path.
use bitchat_node_daemon.Base.{
  ◌≡◌, refl, sym, ap, ◌∙◌, ◌⊎◌, inl, inr, Bool, true, false, Option, none, some, List, [], ◌∷◌,
  some-injective,
}
use bitchat_node_daemon.Base.Bytes.{Text}
use bitchat_node_daemon.Config.{
  Value, null, boolean, number, text, items, fields, Fields, get, deep_merge, merged,
}
use bitchat_node_daemon.Config.Trees.{
  IsTree, AreTrees, IsTree?, get-IsTree?, or_old, laid, get-deep_merge,
}

-- What stands at a path of keys.
abbrev pub value_at : List Text → Option Value → Option Value
value_at [] v = v
value_at (k ∷ path) none = none
value_at (k ∷ path) (some null) = none
value_at (k ∷ path) (some (boolean b)) = none
value_at (k ∷ path) (some (number n)) = none
value_at (k ∷ path) (some (text t)) = none
value_at (k ∷ path) (some (items vs)) = none
value_at (k ∷ path) (some (fields f)) = value_at path (get k f)

-- Whether nothing is said about a path: a mapping on the way has no such key, or null under it.
abbrev pub is_silent : List Text → Option Value → Bool
is_silent path none = true
is_silent path (some null) = true
is_silent [] (some (boolean b)) = false
is_silent [] (some (number n)) = false
is_silent [] (some (text t)) = false
is_silent [] (some (items vs)) = false
is_silent [] (some (fields f)) = false
is_silent (k ∷ path) (some (boolean b)) = false
is_silent (k ∷ path) (some (number n)) = false
is_silent (k ∷ path) (some (text t)) = false
is_silent (k ∷ path) (some (items vs)) = false
is_silent (k ∷ path) (some (fields f)) = is_silent path (get k f)

-- A value that replaces whatever it is laid over.
abbrev pub is_plain : Value → Bool
is_plain null = false
is_plain (boolean b) = true
is_plain (number n) = true
is_plain (text t) = true
is_plain (items vs) = true
is_plain (fields f) = false

none-some : {v : Value} → none ≡ some v → ⊥
none-some e = cc

merged_plain : (v : Value) (old : Option Value) → is_plain v ≡ true → merged v old ≡ some v
unfolding deep_merge
merged_plain null old p = cc
merged_plain (boolean b) old p = refl
merged_plain (number n) old p = refl
merged_plain (text t) old p = refl
merged_plain (items vs) old p = refl
merged_plain (fields f) old p = cc

laid_fields :
    (k : Text) (path : List Text) (f b : Fields)
    → AreTrees f
    → value_at (k ∷ path) (laid (some (fields f)) (some (fields b)))
      ≡ value_at path (laid (get k f) (get k b))
unfolding deep_merge
laid_fields k path f b t = ap (value_at path) (get-deep_merge k f b t)

-- A mapping laid over what is no mapping replaces it.
abbrev no_fields : Option Value → Bool
no_fields none = true
no_fields (some null) = true
no_fields (some (boolean b)) = true
no_fields (some (number n)) = true
no_fields (some (text t)) = true
no_fields (some (items vs)) = true
no_fields (some (fields f)) = false

laid_replaces :
    (f : Fields) (old : Option Value)
    → no_fields old ≡ true
    → laid (some (fields f)) old ≡ some (fields f)
unfolding deep_merge
laid_replaces f none e = refl
laid_replaces f (some null) e = refl
laid_replaces f (some (boolean b)) e = refl
laid_replaces f (some (number n)) e = refl
laid_replaces f (some (text t)) e = refl
laid_replaces f (some (items vs)) e = refl
laid_replaces f (some (fields g)) e = cc

fields-cases :
    (old : Option Value) → (no_fields old ≡ true) ⊎ ((b : Fields) × (old ≡ some (fields b)))
fields-cases none = inl refl
fields-cases (some null) = inl refl
fields-cases (some (boolean b)) = inl refl
fields-cases (some (number n)) = inl refl
fields-cases (some (text t)) = inl refl
fields-cases (some (items vs)) = inl refl
fields-cases (some (fields b)) = inr (b, refl)

-- A value is read below a key in a mapping alone.
value_at-no_fields :
    (k : Text) (path : List Text) (o : Option Value)
    → no_fields o ≡ true
    → value_at (k ∷ path) o ≡ none
value_at-no_fields k path none e = refl
value_at-no_fields k path (some null) e = refl
value_at-no_fields k path (some (boolean b)) e = refl
value_at-no_fields k path (some (number n)) e = refl
value_at-no_fields k path (some (text t)) e = refl
value_at-no_fields k path (some (items vs)) e = refl
value_at-no_fields k path (some (fields f)) e = cc

-- A plain value of the overlay is what the merge has at its path.
plain_at :
    (path : List Text) (o old : Option Value) (v : Value)
    → IsTree? o
    → is_plain v ≡ true
    → value_at path o ≡ some v
    → value_at path (laid o old) ≡ some v
plain_at [] none old v t p e = cc
plain_at [] (some o) old v t p e =
    let o≡ = some-injective e in ap (λ m. or_old m old) (merged_plain o old (rw o≡ p)) ∙ e
plain_at (k ∷ path) o old v t p e = elim (fields-cases o) [
  | inl n ↦ absurd (none-some (sym (value_at-no_fields k path o n) ∙ e))
  | inr (f, is) ↦
      let ts : AreTrees f = unfold IsTree in rw is at t in
      let below : value_at path (get k f) ≡ some v = rw is at e in
      rw is (elim (fields-cases old) [
        | inl n ↦ ap (value_at (k ∷ path)) (laid_replaces f old n) ∙ below
        | inr (b, was) ↦ rw was (
            laid_fields k path f b ts
            ∙ plain_at path (get k f) (get k b) v (get-IsTree? k f ts) p below)
      ])
]

-- Where the overlay is silent the merge has what the base has.
silent_at :
    (path : List Text) (o old : Option Value) (v : Value)
    → IsTree? o
    → is_silent path o ≡ true
    → value_at path old ≡ some v
    → value_at path (laid o old) ≡ some v
silent_at path none old v t s e = e
silent_at path (some null) old v t s e = unfold deep_merge in e
silent_at [] (some (boolean b)) old v t s e = cc
silent_at [] (some (number n)) old v t s e = cc
silent_at [] (some (text x)) old v t s e = cc
silent_at [] (some (items vs)) old v t s e = cc
silent_at [] (some (fields f)) old v t s e = cc
silent_at (k ∷ path) (some (boolean b)) old v t s e = cc
silent_at (k ∷ path) (some (number n)) old v t s e = cc
silent_at (k ∷ path) (some (text x)) old v t s e = cc
silent_at (k ∷ path) (some (items vs)) old v t s e = cc
silent_at (k ∷ path) (some (fields f)) old v t s e = elim (fields-cases old) [
  | inl n ↦ absurd (none-some (sym (value_at-no_fields k path old n) ∙ e))
  | inr (b, was) ↦
      let ts : AreTrees f = unfold IsTree in t in
      let below : value_at path (get k b) ≡ some v = rw was at e in
      rw was (
        laid_fields k path f b ts
        ∙ silent_at path (get k f) (get k b) v (get-IsTree? k f ts) s below)
]

-- After the merge of an overlay in which no mapping has a key twice, a path has the value that the
-- overlay has there, where that is neither null nor a mapping, and the value of the base where the
-- overlay says nothing about the path or says null.
pub deep_merge_lem :
    (path : List Text) (overlay base : Fields) (v : Value)
    → AreTrees overlay
    → ((value_at path (some (fields overlay)) ≡ some v) × (is_plain v ≡ true))
      ⊎ ((is_silent path (some (fields overlay)) ≡ true)
          × (value_at path (some (fields base)) ≡ some v))
    → value_at path (some (fields (deep_merge overlay base))) ≡ some v
deep_merge_lem path overlay base v t h =
    let t' : IsTree? (some (fields overlay)) = unfold IsTree in t in
    let merge : laid (some (fields overlay)) (some (fields base))
        ≡ some (fields (deep_merge overlay base)) =
      unfold deep_merge in refl in
    ap (value_at path) (sym merge) ∙ elim h [
      | inl (e, p) ↦ plain_at path (some (fields overlay)) (some (fields base)) v t' p e
      | inr (s, e) ↦ silent_at path (some (fields overlay)) (some (fields base)) v t' s e
    ]
