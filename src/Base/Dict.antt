-- ===== src/Base/Dict.antt =====
-- Python's `dict` and `set` with text keys. A `dict` keeps the order of insertion: a new key goes
-- to the end, and a write to a key that is there leaves it where it stands.
use bitchat_node_daemon.Base.Tests.{if◌then◌else◌, is_some, Bool-cases}
use bitchat_node_daemon.Base.Lists.{length}
use bitchat_node_daemon.Base.Bytes.{Text, eq_text, eq_text_iff}
use Prim.Native.Nat.{◌≤◌}
use mathlib.Core.Path.{◌≡◌, refl, sym, ◌∙◌}
use mathlib.Core.Logic.{inl, inr}
use mathlib.Core.Bool.{Bool, true, false, ◌||◌}
use mathlib.Core.Option.{Option, none, some}
use mathlib.Core.List.{List, [], ◌∷◌, ◌++◌, append_assoc, append-nil}
use native.Mathlib.Omega.{arith}

abbrev pub Dict {ℓ} : Type ℓ → Type ℓ
Dict V = List (Text × V)

module _ {ℓ} {V : Type ℓ} where
  -- `d.get(k)`
  unfoldable pub lookup : Text → Dict V → Option V
  lookup k [] = none
  lookup k ((j, v) ∷ d) = if eq_text j k then some v else lookup k d

  -- `k in d`
  abbrev pub has_key : Text → Dict V → Bool
  has_key k d = is_some (lookup k d)

  -- `d[k] = v`
  unfoldable pub insert : Text → V → Dict V → Dict V
  insert k v [] = (k, v) ∷ []
  insert k v ((j, w) ∷ d) = if eq_text j k then (j, v) ∷ d else (j, w) ∷ insert k v d

  -- `d.pop(k, None)`; a key stands once in a dict, and every entry of it goes.
  unfoldable pub remove : Text → Dict V → Dict V
  remove k [] = []
  remove k ((j, v) ∷ d) = let rest = remove k d in if eq_text j k then rest else (j, v) ∷ rest

  pub lookup-insert :
      (k j : Text) (v : V) (d : Dict V)
      → lookup j (insert k v d) ≡ (if eq_text k j then some v else lookup j d)
  unfolding lookup insert
  lookup-insert k j v [] = refl
  lookup-insert k j v ((i, w) ∷ d) =
      ground (arith, eq_text_iff k j, eq_text_iff i k, eq_text_iff i j, lookup-insert k j v d)

  pub lookup-remove :
      (k j : Text) (d : Dict V) → lookup j (remove k d) ≡ (if eq_text k j then none else lookup j d)
  unfolding lookup remove
  lookup-remove k j [] = ground arith
  lookup-remove k j ((i, w) ∷ d) =
      ground (arith, eq_text_iff k j, eq_text_iff i k, eq_text_iff i j, lookup-remove k j d)

  -- A dictionary without one key, as it is read.
  abbrev pub without : Text → Dict V → Text → Option V
  without k d j = if eq_text k j then none else lookup j d

  pub length-remove : (k : Text) (d : Dict V) → length (remove k d) ≤ length d
  unfolding remove
  length-remove k [] = omega arith
  length-remove k ((j, v) ∷ d) = ground (arith, length-remove k d)

-- `x in s`, `s.add(x)`, `s.discard(x)`; the order of a set is never looked at.
unfoldable pub member : Text → List Text → Bool
member x [] = false
member x (y ∷ s) = eq_text y x || member x s

unfoldable pub add : Text → List Text → List Text
add x s = if member x s then s else s ++ x ∷ []

unfoldable pub discard : Text → List Text → List Text
discard x [] = []
discard x (y ∷ s) = let rest = discard x s in if eq_text y x then rest else y ∷ rest

member-append : (x y : Text) (s : List Text) → member y (s ++ x ∷ []) ≡ member y s || eq_text x y
unfolding member
member-append x y [] = ground arith
member-append x y (z ∷ s) = ground (arith, member-append x y s)

pub member-add : (x y : Text) (s : List Text) → member y (add x s) ≡ member y s || eq_text x y
unfolding add
member-add x y s = ground (arith, member-append x y s, eq_text_iff x y)

pub member-discard :
    (x y : Text) (s : List Text)
    → member y (discard x s) ≡ (if eq_text x y then false else member y s)
unfolding member discard
member-discard x y [] = ground arith
member-discard x y (z ∷ s) =
    ground (arith, eq_text_iff x y, eq_text_iff z x, eq_text_iff z y, member-discard x y s)

-- No text stands twice.
abbrev pub Distinct : List Text → Type 0
Distinct [] = Unit
Distinct (x ∷ xs) = (member x xs ≡ false) × Distinct xs

pub Distinct-append :
    (x : Text) (xs : List Text) → Distinct xs → member x xs ≡ false → Distinct (xs ++ x ∷ [])
unfolding member
Distinct-append x [] h e = (refl, tt)
Distinct-append x (y ∷ xs) (h, hs) e =
    let e' : (eq_text y x || member x xs) ≡ false = e in
    (
      ground (arith, member-append x y xs, eq_text_iff x y, eq_text_iff y x),
      Distinct-append x xs hs (ground arith),
    )

-- `set(xs)`, in the order in which the elements come.
collect : List Text → List Text → List Text
unfolding add
collect s [] = s
collect s (x ∷ xs) = collect (add x s) xs

unfoldable pub to_set : List Text → List Text
unfolding collect
to_set xs = collect [] xs

add_new : (x : Text) (s : List Text) → member x s ≡ false → add x s ≡ s ++ x ∷ []
unfolding add
add_new x s e = rw e refl

-- Nothing of the rest is in the set yet.
abbrev Disjoint : List Text → List Text → Type 0
Disjoint s xs = (x : Text) → member x xs ≡ true → member x s ≡ false

collect-Distinct : (s xs : List Text) → Distinct xs → Disjoint s xs → collect s xs ≡ s ++ xs
unfolding collect
collect-Distinct s [] h d = sym (append-nil s)
collect-Distinct s (x ∷ xs) (h, hs) d =
    let new : member x s ≡ false = d x (unfold member in ground (arith, eq_text_iff x x)) in
    let rest : Disjoint (s ++ x ∷ []) xs = (λ y m.
      ground (arith, member-append x y s, eq_text_iff x y, d y (unfold member in ground arith))) in
    rw (add_new x s new) (collect-Distinct (s ++ x ∷ []) xs hs rest ∙ append_assoc s (x ∷ []) xs)

pub to_set-Distinct : (xs : List Text) → Distinct xs → to_set xs ≡ xs
unfolding to_set member
to_set-Distinct xs h = collect-Distinct [] xs h (λ x m. refl)

collect-IsDistinct : (s xs : List Text) → Distinct s → Distinct (collect s xs)
unfolding collect
collect-IsDistinct s [] h = h
collect-IsDistinct s (x ∷ xs) h = collect-IsDistinct (add x s) xs (elim (Bool-cases (member x s)) [
  | inl e ↦ unfold add in rw e h
  | inr e ↦ rw (add_new x s e) (Distinct-append x s h e)
])

pub to_set-IsDistinct : (xs : List Text) → Distinct (to_set xs)
unfolding to_set
to_set-IsDistinct xs = collect-IsDistinct [] xs tt
