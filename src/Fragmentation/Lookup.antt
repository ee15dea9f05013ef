-- ===== src/Fragmentation/Lookup.antt =====
-- Lists of numbered fragments, in any order.
use bitchat_node_daemon.Base.{
  ℕ, suc, ◌+◌, ◌≤◌, ◌<◌, ◌≡◌, refl, sym, ap, ◌∙◌, ◌≢◌, none, some, List, [], ◌∷◌, ◌++◌, arith, ◌==◌,
  if◌then◌else◌, length,
}
use bitchat_node_daemon.Base.Bytes.{Bytes}
use mathlib.Core.List.{Permᴰ}
use bitchat_node_daemon.Protocol.Trackers.{FragmentMap, get_fragment, put_fragment, join_fragments}
use bitchat_node_daemon.Fragmentation.Chunks.{concat}

-- No number stands twice.
abbrev pub Distinct : FragmentMap → Type 0
Distinct [] = Unit {0}
Distinct ((i, d) ∷ m) = (get_fragment i m ≡ none) × Distinct m

-- The chunks with their numbers, from `i` on.
abbrev pub numbered : ℕ → List Bytes → FragmentMap
numbered i [] = []
numbered i (c ∷ cs) = (i, c) ∷ numbered (i + 1) cs

get_fragment-numbered_below :
    (j i : ℕ) (cs : List Bytes) → j < i → get_fragment j (numbered i cs) ≡ none
unfolding get_fragment
get_fragment-numbered_below j i [] h = refl
get_fragment-numbered_below j i (c ∷ cs) h =
    ground (arith, get_fragment-numbered_below j (i + 1) cs)

pub Distinct-numbered : (i : ℕ) (cs : List Bytes) → Distinct (numbered i cs)
Distinct-numbered i [] = tt
Distinct-numbered i (c ∷ cs) =
    (get_fragment-numbered_below i (i + 1) cs (omega arith), Distinct-numbered (i + 1) cs)

abbrev Agree : FragmentMap → FragmentMap → Type 0
Agree m n = Distinct n × ((i : ℕ) → get_fragment i m ≡ get_fragment i n)

cons-Agree :
    (a : ℕ × Bytes) (m n : FragmentMap) → Distinct (a ∷ m) → Agree m n → Agree (a ∷ m) (a ∷ n)
unfolding get_fragment
cons-Agree a m n d (dn, f) = ((sym (f a.0) ∙ d.0, dn), λ i. rw (f i))

swap-Agree :
    (a b : ℕ × Bytes) (l : FragmentMap) → Distinct (a ∷ b ∷ l) → Agree (a ∷ b ∷ l) (b ∷ a ∷ l)
unfolding get_fragment
swap-Agree a b l d = ((ground arith, (ground arith, d.1.1)), λ i. ground arith)

-- Rearranging keeps the numbers distinct and what is found under each.
pub perm_agree :
    {m n : FragmentMap}
    → Permᴰ m n
    → Distinct m
    → Distinct n × ((i : ℕ) → get_fragment i m ≡ get_fragment i n)
perm_agree Permᴰ.nil d = (tt, λ i. refl)
perm_agree (Permᴰ.cons {a = a} {l₁ = m} {l₂ = n} e p) d =
    rw (← e) (cons-Agree a m n d (perm_agree p d.1))
perm_agree (Permᴰ.swap {a = a} {b = b} {l = l} e f) d = rw (← e, ← f) (swap-Agree a b l d)
perm_agree (Permᴰ.trans p q) d =
    let (d', f) = perm_agree p d in let (d'', g) = perm_agree q d' in (d'', λ i. f i ∙ g i)

-- A new number goes to the end.
pub put_fragment-new :
    (i : ℕ) (d : Bytes) (m : FragmentMap)
    → get_fragment i m ≡ none
    → put_fragment i d m ≡ m ++ (i, d) ∷ []
unfolding get_fragment put_fragment
put_fragment-new i d [] h = refl
put_fragment-new i d ((j, e) ∷ m) h = ground (arith, put_fragment-new i d m)

pub get_fragment-append :
    (i j : ℕ) (d : Bytes) (m : FragmentMap)
    → get_fragment i (m ++ (j, d) ∷ [])
      ≡ elim (get_fragment i m) [ none ↦ if j == i then some d else none | some e ↦ some e ]
unfolding get_fragment
get_fragment-append i j d [] = ground arith
get_fragment-append i j d ((k, e) ∷ m) = ground (arith, get_fragment-append i j d m)

-- Joining looks only at what is found under each number.
pub join_fragments-numbered :
    (cs : List Bytes) (i : ℕ) (m : FragmentMap)
    → ((j : ℕ) → i ≤ j → get_fragment j m ≡ get_fragment j (numbered i cs))
    → join_fragments (length cs) i m ≡ some (concat cs)
unfolding join_fragments
join_fragments-numbered [] i m h = refl
join_fragments-numbered (c ∷ cs) i m h =
    let here : get_fragment i m ≡ some c =
      unfold get_fragment in ground (arith, h i (omega arith)) in
    let later : (j : ℕ) → i + 1 ≤ j → get_fragment j m ≡ get_fragment j (numbered (i + 1) cs) =
      λ j le. unfold get_fragment in ground (arith, h j (omega arith)) in
    rw (here, join_fragments-numbered cs (i + 1) m later, join_fragments)

get_fragment-append_left :
    (i : ℕ) (m n : FragmentMap) → get_fragment i (m ++ n) ≡ none → get_fragment i m ≡ none
unfolding get_fragment
get_fragment-append_left i [] n h = refl
get_fragment-append_left i ((j, e) ∷ m) n h = ground (arith, get_fragment-append_left i m n)

get_fragment-append_head :
    (i j : ℕ) (d : Bytes) (m n : FragmentMap) → get_fragment i (m ++ (j, d) ∷ n) ≡ none → j ≢ i
unfolding get_fragment
get_fragment-append_head i j d [] n h = ground arith
get_fragment-append_head i j d ((k, e) ∷ m) n h = get_fragment-append_head i j d m n (ground arith)

-- In a list with distinct numbers none stands in the part before it.
pub Distinct-append :
    (i : ℕ) (d : Bytes) (m n : FragmentMap) → Distinct (m ++ (i, d) ∷ n) → get_fragment i m ≡ none
unfolding get_fragment
Distinct-append i d [] n h = refl
Distinct-append i d ((j, e) ∷ m) n h =
    ground (arith, get_fragment-append_head j i d m n h.0, Distinct-append i d m n h.1)

pub perm-length : {m n : FragmentMap} → Permᴰ m n → length m ≡ length n
perm-length Permᴰ.nil = refl
perm-length (Permᴰ.cons e p) = ap suc (perm-length p)
perm-length (Permᴰ.swap e f) = refl
perm-length (Permᴰ.trans p q) = perm-length p ∙ perm-length q

pub length-numbered : (i : ℕ) (cs : List Bytes) → length (numbered i cs) ≡ length cs
length-numbered i [] = refl
length-numbered i (c ∷ cs) = ap suc (length-numbered (i + 1) cs)
