-- ===== src/Config/Trees.antt =====
-- Trees of values of daemon/config.py, and what a key has after a merge.
use bitchat_node_daemon.Base.{
  ◌≡◌, refl, sym, ap, ap₂, ◌∙◌, subst, inl, inr, Bool-cases, Option, none, some, false, arith,
  if◌then◌else◌,
}
use bitchat_node_daemon.Base.Bytes.{Text, eq_text, eq_text_refl, eq_text_iff}
use bitchat_node_daemon.Config.{
  Value, null, boolean, number, text, items, fields, Fields, end, field, get, put, put_if,
  deep_merge, merged,
}

-- In every mapping of a tree a key stands once.
unfoldable mutual
  pub IsTree : Value → Type 0
  IsTree null = Unit
  IsTree (boolean b) = Unit
  IsTree (number n) = Unit
  IsTree (text t) = Unit
  IsTree (items vs) = Unit
  IsTree (fields f) = AreTrees f

  pub AreTrees : Fields → Type 0
  AreTrees end = Unit
  AreTrees (field k v rest) = (get k rest ≡ none) × IsTree v × AreTrees rest

get-put :
    (k j : Text) (v : Value) (f : Fields)
    → get j (put k v f) ≡ (if eq_text k j then some v else get j f)
unfolding get put
get-put k j v end = refl
get-put k j v (field i w rest) =
    ground (arith, eq_text_iff k j, eq_text_iff i k, eq_text_iff i j, get-put k j v rest)

abbrev pub IsTree? : Option Value → Type 0
IsTree? none = Unit
IsTree? (some v) = IsTree v

pub get-IsTree? : (k : Text) (f : Fields) → AreTrees f → IsTree? (get k f)
unfolding get AreTrees
get-IsTree? k end h = tt
get-IsTree? k (field j w rest) (fresh, t, ts) = elim (Bool-cases (eq_text j k)) [
  | inl same ↦ rw same t
  | inr other ↦ rw other (get-IsTree? k rest ts)
]

abbrev pub or_old : Option Value → Option Value → Option Value
or_old none old = old
or_old (some v) old = some v

-- What a key has after a merge, by what the overlay and the base have.
abbrev pub laid : Option Value → Option Value → Option Value
laid none old = old
laid (some v) old = or_old (merged v old) old

get-put_if : (k : Text) (m : Option Value) (f : Fields) → get k (put_if k m f) ≡ or_old m (get k f)
unfolding put_if
get-put_if k none f = refl
get-put_if k (some v) f = get-put k k v f ∙ rw (eq_text_refl k) refl

get-put_if_other :
    (k j : Text) (m : Option Value) (f : Fields)
    → eq_text k j ≡ false
    → get j (put_if k m f) ≡ get j f
unfolding put_if
get-put_if_other k j none f e = refl
get-put_if_other k j (some v) f e = get-put k j v f ∙ rw e refl

pub get-deep_merge :
    (k : Text) (overlay base : Fields)
    → AreTrees overlay
    → get k (deep_merge overlay base) ≡ laid (get k overlay) (get k base)
unfolding deep_merge AreTrees
get-deep_merge k end base h = unfold get in refl
get-deep_merge k (field j v rest) base (fresh, t, ts) =
    let base' = put_if j (merged v (get j base)) base in
    elim (Bool-cases (eq_text j k)) [
      | inl same ↦
          let j≡k = (eq_text_iff j k).0 same in
          let first : get k (field j v rest) ≡ some v = unfold get in rw same refl in
          let gone : get k rest ≡ none = subst (λ x. get x rest ≡ none) j≡k fresh in
          let put' : get k base' ≡ laid (some v) (get k base) =
            subst (λ x. get x (put_if j (merged v (get j base)) base) ≡ laid (some v) (get x base))
              j≡k (get-put_if j (merged v (get j base)) base) in
          get-deep_merge k rest base' ts
          ∙ ap (λ o. laid o (get k base')) gone
          ∙ put'
          ∙ ap (λ o. laid o (get k base)) (sym first)
      | inr other ↦
          let later : get k (field j v rest) ≡ get k rest = unfold get in rw other refl in
          get-deep_merge k rest base' ts
          ∙ ap₂ laid (sym later) (get-put_if_other j k (merged v (get j base)) base other)
    ]
