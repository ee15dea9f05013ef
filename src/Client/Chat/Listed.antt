-- ===== src/Client/Chat/Listed.antt =====
-- The channels that bitchat/terminal_ux.py lists, over everything that bitchat.py does to them.
use bitchat_node_daemon.Base.{
  ℕ, zero, suc, ◌+◌, ◌≡◌, refl, sym, ◌∙◌, subst, inl, inr, Bool, true, false, Option, none, some,
  List, [], ◌∷◌, map, arith, ltb, Bool-cases, some-injective, length, get_elem?, All, All-append,
  Result, ok, err, ok-injective,
}
use bitchat_node_daemon.Base.Bytes.{Text, eq_text, eq_text_refl, eq_text_iff}
use bitchat_node_daemon.Base.Dict.{Dict, member, add, member-add, Distinct, Distinct-append}
use bitchat_node_daemon.Client.Chat.{
  ChatMode, public, channel, private_dm, ChatContext, new_context, dm_at, open_dm, or_dm,
  switch_to_number, add_channel, add_dm, enter_dm_mode, switch_to_channel, switch_to_public,
  remove_first, remove_channel,
}
use bitchat_node_daemon.Client.Chat.Numbers.{conversations, opened, dm_mode, switch_to_number-suc}

-- What the client does to its chat context: it opens a conversation by its number, opens or notes
-- a direct message, joins or notes a channel, goes to the public chat, leaves the open channel, drops
-- the direct messages of a peer that left, or of all of them when the connection is lost.
pub data Step (ctx : ChatContext) : ChatContext → Type 0 where
  chosen :
      (num : ℕ) (done : Bool) (next : ChatContext)
      → switch_to_number num ctx ≡ ok (done, next)
      → Step ctx next
  dm_entered : (nickname peer_id : Text) → Step ctx (enter_dm_mode nickname peer_id ctx)
  dm_noted : (nickname peer_id : Text) → Step ctx (add_dm nickname peer_id ctx)
  joined : (name : Text) → Step ctx (switch_to_channel name ctx)
  noted : (name : Text) → Step ctx (add_channel name ctx)
  went_public : Step ctx (switch_to_public ctx)
  left :
      (name : Text)
      → ctx.current_mode ≡ channel name
      → Step ctx (switch_to_public (remove_channel name ctx))
  dm_dropped : (dms : Dict Text) → Step ctx (record ctx { active_dms = dms })

pub data Reach : ChatContext → Type 0 where
  here : Reach new_context
  next : {t u : ChatContext} → Reach t → Step t u → Reach u

-- A channel that is open is listed.
abbrev pub Shown : ChatMode → List Text → Type 0
Shown public names = Unit
Shown (channel name) names = member name names ≡ true
Shown (private_dm nickname peer_id) names = Unit

abbrev pub IsListed : ChatContext → Type 0
IsListed ctx = Distinct ctx.active_channels × Shown ctx.current_mode ctx.active_channels

add-Distinct : (x : Text) (s : List Text) → Distinct s → Distinct (add x s)
unfolding add
add-Distinct x s h = elim (Bool-cases (member x s)) [
  | inl e ↦ rw e h
  | inr e ↦ rw e (Distinct-append x s h e)
]

add-Shown : (x : Text) (m : ChatMode) (s : List Text) → Shown m s → Shown m (add x s)
add-Shown x public s h = tt
add-Shown x (channel name) s h = ground (arith, member-add x name s)
add-Shown x (private_dm nickname peer_id) s h = tt

remove_first-subset :
    (x y : Text) (s : List Text) → member y s ≡ false → member y (remove_first x s) ≡ false
unfolding member remove_first
remove_first-subset x y [] h = refl
remove_first-subset x y (z ∷ s) h = ground (arith, remove_first-subset x y s)

pub remove_first-Distinct : (x : Text) (s : List Text) → Distinct s → Distinct (remove_first x s)
unfolding remove_first
remove_first-Distinct x [] h = tt
remove_first-Distinct x (y ∷ s) (h, hs) = elim (Bool-cases (eq_text y x)) [
  | inl e ↦ rw e hs
  | inr e ↦ rw e (remove_first-subset x y s h, remove_first-Distinct x s hs)
]

pub remove_first-gone :
    (x : Text) (s : List Text) → Distinct s → member x (remove_first x s) ≡ false
unfolding remove_first member
remove_first-gone x [] h = refl
remove_first-gone x (y ∷ s) (h, hs) = elim (Bool-cases (eq_text y x)) [
  | inl e ↦ rw e (subst (λ t. member t s ≡ false) ((eq_text_iff y x).0 e) h)
  | inr e ↦ rw (e, e) (remove_first-gone x s hs)
]

channels-Shown :
    (xs names : List Text)
    → ((y : Text) → member y xs ≡ true → member y names ≡ true)
    → All (λ m. Shown m names) (map channel xs)
channels-Shown [] names h = tt
channels-Shown (x ∷ xs) names h = (
  h x (unfold member in ground (arith, eq_text_refl x)),
  channels-Shown xs names (λ y m. h y (unfold member in ground arith)),
)

dms-Shown : (names : List Text) (dms : Dict Text) → All (λ m. Shown m names) (map dm_mode dms)
dms-Shown names [] = tt
dms-Shown names ((nick, peer_id) ∷ dms) = (tt, dms-Shown names dms)

All-get_elem? {ℓ} :
    {A : Type ℓ} (P : A → Type 0) (xs : List A) (i : ℕ) {x : A}
    → All P xs
    → get_elem? xs i ≡ some x
    → P x
All-get_elem? P [] i h e = cc
All-get_elem? P (y ∷ xs) zero h e = subst P (some-injective e) h.0
All-get_elem? P (y ∷ xs) (suc i) h e = All-get_elem? P xs i h.1 e

conversations-Shown :
    (ctx : ChatContext) → All (λ m. Shown m ctx.active_channels) (conversations ctx)
conversations-Shown ctx =
    let P : ChatMode → Type 0 = (λ m. Shown m ctx.active_channels) in
    (
      tt,
      All-append P (map channel ctx.active_channels) (map dm_mode ctx.active_dms)
          (channels-Shown ctx.active_channels ctx.active_channels (λ y m. m))
          (dms-Shown ctx.active_channels ctx.active_dms),
    )

opened-IsListed :
    (ctx : ChatContext) (o : Option ChatMode)
    → ((m : ChatMode) → o ≡ some m → Shown m ctx.active_channels)
    → IsListed ctx
    → IsListed (opened ctx o).1
opened-IsListed ctx none shown h = h
opened-IsListed ctx (some m) shown h = (h.0, shown m refl)

open_dm-IsListed :
    (ctx : ChatContext) (r : Result (Text × Text)) {done : Bool} {u : ChatContext}
    → open_dm ctx r ≡ ok (done, u)
    → IsListed ctx
    → IsListed u
unfolding open_dm
open_dm-IsListed ctx (err raised) e h = cc
open_dm-IsListed ctx (ok (nick, peer_id)) e h = subst (λ d. IsListed d.1) (ok-injective e) (h.0, tt)

zero-IsListed :
    (ctx : ChatContext) (done : Bool) (u : ChatContext)
    → or_dm 0 ctx none ≡ ok (done, u)
    → IsListed ctx
    → IsListed u
unfolding or_dm
zero-IsListed ctx done u e h =
    let some_number : ltb 0 (2 + length ctx.active_channels + length ctx.active_dms) ≡ true =
      ground arith in
    open_dm-IsListed ctx (dm_at 0 (2 + length ctx.active_channels) ctx.active_dms)
      (rw some_number at e) h

chosen-IsListed :
    (num : ℕ) (ctx : ChatContext) (done : Bool) (u : ChatContext)
    → switch_to_number num ctx ≡ ok (done, u)
    → IsListed ctx
    → IsListed u
chosen-IsListed zero ctx done u e h = zero-IsListed ctx done u (unfold switch_to_number in e) h
chosen-IsListed (suc n) ctx done u e h =
    let same : opened ctx (get_elem? (conversations ctx) n) ≡ (done, u) =
      ok-injective (sym (switch_to_number-suc n ctx) ∙ e) in
    subst (λ d. IsListed d.1) same
      (opened-IsListed ctx (get_elem? (conversations ctx) n)
        (λ m f.
          All-get_elem? (λ k. Shown k ctx.active_channels) (conversations ctx) n
            (conversations-Shown ctx) f)
        h)

Step-IsListed : {t u : ChatContext} → Step t u → IsListed t → IsListed u
Step-IsListed {t} (chosen num done u e) h = chosen-IsListed num t done u e h
Step-IsListed {t} (dm_entered nickname peer_id) (d, s) = unfold enter_dm_mode in (d, tt)
Step-IsListed {t} (dm_noted nickname peer_id) h = unfold add_dm in h
Step-IsListed {t} (joined name) (d, s) =
    unfold switch_to_channel in
    (
      add-Distinct name t.active_channels d,
      ground (arith, member-add name name t.active_channels, eq_text_refl name),
    )
Step-IsListed {t} (noted name) (d, s) =
    unfold add_channel in
    (add-Distinct name t.active_channels d, add-Shown name t.current_mode t.active_channels s)
Step-IsListed {t} went_public (d, s) = unfold switch_to_public in (d, tt)
Step-IsListed {t} (left name e) (d, s) =
    unfold switch_to_public in
    unfold remove_channel in (remove_first-Distinct name t.active_channels d, tt)
Step-IsListed {t} (dm_dropped dms) h = h

-- Whatever the client does to its conversations, from the start on no channel is listed twice and
-- a channel that is open is listed.
pub Reach-IsListed : {ctx : ChatContext} → Reach ctx → IsListed ctx
Reach-IsListed here = (tt, tt)
Reach-IsListed (next r st) = Step-IsListed st (Reach-IsListed r)
