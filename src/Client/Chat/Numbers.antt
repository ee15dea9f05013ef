-- ===== src/Client/Chat/Numbers.antt =====
-- The numbers under which bitchat/terminal_ux.py shows and opens conversations.
use bitchat_node_daemon.Base.{
  ℕ, zero, suc, ◌+◌, ◌-◌, ◌<◌, ◌≡◌, refl, sym, ap, ap₂, ◌∙◌, inl, inr, Bool, true, false, ◌&&◌,
  Option, none, some, List, [], ◌∷◌, ◌++◌, map, arith, ltb, leb, ◌==◌, Bool-cases, length,
  get_elem?, get_elem?-append_left, get_elem?-append_right, get_elem?-in, get_elem?-out, length-map,
  get_elem?-map, ok,
}
use bitchat_node_daemon.Base.Decimal.{decimal}
use bitchat_node_daemon.Base.Bytes.{Text}
use bitchat_node_daemon.Base.Dict.{Dict}
use bitchat_node_daemon.Client.Chat.{
  ChatMode, public, channel, private_dm, ChatContext, part, join_spaces, channel_parts, dm_parts,
  status_parts, get_status_line, dm_at, open_dm, open_channel, or_dm, switch_to_number,
}
use bitchat_node_daemon.Base.Texts.{codes}

-- The conversations in the order of their numbers, from 1.
abbrev pub conversations : ChatContext → List ChatMode
conversations ctx =
    public
    ∷ (map channel ctx.active_channels
        ++ map (λ (nick, peer_id). private_dm nick peer_id) ctx.active_dms)

abbrev pub label : ChatMode → Text
label public = codes "Public"
label (channel name) = name
label (private_dm nick peer_id) = codes "DM:" ++ nick

abbrev pub numbered : ℕ → List ChatMode → List Text
numbered n [] = []
numbered n (m ∷ ms) = part n (label m) ∷ numbered (suc n) ms

abbrev pub opened : ChatContext → Option ChatMode → Bool × ChatContext
opened ctx none = (false, ctx)
opened ctx (some m) = (true, record ctx { current_mode = m })

numbered-append :
    (n k : ℕ) (xs ys : List ChatMode)
    → length xs + n ≡ k
    → numbered n (xs ++ ys) ≡ numbered n xs ++ numbered k ys
numbered-append n k [] ys e = ap (λ m. numbered m ys) (omega arith)
numbered-append n k (x ∷ xs) ys e =
    ap (λ r. part n (label x) ∷ r) (numbered-append (suc n) k xs ys (omega arith))

channel_parts_lem :
    (i k : ℕ) (cs : List Text) → i + 2 ≡ k → channel_parts i cs ≡ numbered k (map channel cs)
unfolding channel_parts
channel_parts_lem i k [] e = refl
channel_parts_lem i k (c ∷ cs) e =
    ap₂ (λ m r. part m c ∷ r) e (channel_parts_lem (suc i) (suc k) cs (omega arith))

abbrev pub dm_mode : Text × Text → ChatMode
dm_mode (nick, peer_id) = private_dm nick peer_id

dm_parts_lem :
    (s i k : ℕ) (dms : Dict Text) → i + s ≡ k → dm_parts s i dms ≡ numbered k (map dm_mode dms)
unfolding dm_parts
dm_parts_lem s i k [] e = refl
dm_parts_lem s i k ((nick, peer_id) ∷ dms) e =
    ap₂ (λ m r. part m (codes "DM:" ++ nick) ∷ r) e
      (dm_parts_lem s (suc i) (suc k) dms (omega arith))

status_parts_lem : (ctx : ChatContext) → status_parts ctx ≡ numbered 1 (conversations ctx)
unfolding status_parts decimal
status_parts_lem ctx =
    let cs = ctx.active_channels in
    let dms = ctx.active_dms in
    let s : ℕ = 2 + length cs in
    let e : length (map channel cs) + 2 ≡ s = omega (arith, length-map channel cs) in
    ap (λ r. part 1 (codes "Public") ∷ r)
      (ap₂ (λ a b. a ++ b) (channel_parts_lem 0 2 cs (omega arith))
          (dm_parts_lem s 0 s dms (omega arith))
        ∙ sym (numbered-append 2 s (map channel cs) (map dm_mode dms) e))

-- The conversation at a place behind the first one.
at_channel :
    (ctx : ChatContext) (k : ℕ) {c : Text}
    → get_elem? ctx.active_channels k ≡ some c
    → k < length ctx.active_channels
    → switch_to_number (suc (suc k)) ctx ≡ ok (opened ctx (get_elem? (conversations ctx) (suc k)))
unfolding switch_to_number or_dm open_channel
at_channel ctx k e h =
    let low : (ltb 1 (suc (suc k)) && leb (suc (suc k)) (1 + length ctx.active_channels)) ≡ true =
      ground arith in
    let place : suc (suc k) - 2 ≡ k = omega arith in
    let one : (suc (suc k) == 1) ≡ false = ground arith in
    let cs = map channel ctx.active_channels in
    let found =
      get_elem?-append_left cs (map dm_mode ctx.active_dms) k
        (omega (arith, length-map channel ctx.active_channels))
      ∙ get_elem?-map channel ctx.active_channels k e in
    rw (one, low, place, e, found) refl

dm_at_lem :
    (s i : ℕ) (dms : Dict Text) {dm : Text × Text}
    → get_elem? dms i ≡ some dm
    → dm_at (s + i) s dms ≡ ok dm
unfolding dm_at
dm_at_lem s i dms e =
    let reached : leb s (s + i) ≡ true = ground arith in
    let place : s + i - s ≡ i = omega arith in rw (reached, place, e) refl

-- The conversation at a place behind the channels.
at_dm :
    (ctx : ChatContext) (i : ℕ)
    → switch_to_number (2 + length ctx.active_channels + i) ctx
      ≡ ok (opened ctx (get_elem? (map dm_mode ctx.active_dms) i))
unfolding switch_to_number or_dm open_dm
at_dm ctx i =
    let s : ℕ = 2 + length ctx.active_channels in
    let one : (s + i == 1) ≡ false = ground arith in
    let high : (ltb 1 (s + i) && leb (s + i) (1 + length ctx.active_channels)) ≡ false =
      ground arith in
    elim (Bool-cases (ltb i (length ctx.active_dms))) [
      | inl inside ↦
          let (dm, e) = get_elem?-in ctx.active_dms i (ground arith) in
          let low : ltb (s + i) (s + length ctx.active_dms) ≡ true = ground arith in
          rw
            (
              one,
              high,
              low,
              dm_at_lem s i ctx.active_dms e,
              get_elem?-map dm_mode ctx.active_dms i e,
            )
            refl
      | inr outside ↦
          let past : ltb (s + i) (s + length ctx.active_dms) ≡ false = ground arith in
          let out : get_elem? (map dm_mode ctx.active_dms) i ≡ none =
            get_elem?-out (map dm_mode ctx.active_dms) i
              (ground (arith, length-map dm_mode ctx.active_dms)) in
          rw (one, high, past, out) refl
    ]

pub switch_to_number-suc :
    (n : ℕ) (ctx : ChatContext)
    → switch_to_number (suc n) ctx ≡ ok (opened ctx (get_elem? (conversations ctx) n))
switch_to_number-suc zero ctx = unfold switch_to_number in refl
switch_to_number-suc (suc k) ctx =
    let cs = map channel ctx.active_channels in
    elim (Bool-cases (ltb k (length ctx.active_channels))) [
      | inl inside ↦
          let (c, e) = get_elem?-in ctx.active_channels k (ground arith) in
          at_channel ctx k e (ground arith)
      | inr outside ↦
          let i : ℕ = k - length ctx.active_channels in
          let number : suc (suc k) ≡ 2 + length ctx.active_channels + i = ground arith in
          let place : k ≡ length cs + i = ground (arith, length-map channel ctx.active_channels) in
          let found : get_elem? (conversations ctx) (suc k)
              ≡ get_elem? (map dm_mode ctx.active_dms) i =
            ap (get_elem? (cs ++ map dm_mode ctx.active_dms)) place
            ∙ get_elem?-append_right cs (map dm_mode ctx.active_dms) i in
          ap (λ m. switch_to_number m ctx) number
          ∙ at_dm ctx i
          ∙ ap (λ m. ok (opened ctx m)) (sym found)
    ]

-- A number from 1 on opens the conversation that the status line shows under it, and where it shows
-- none under that number nothing changes and the answer is False.
pub switch_to_number_lem :
    (n : ℕ) (ctx : ChatContext)
    → (get_status_line ctx ≡ codes "Active: " ++ join_spaces (numbered 1 (conversations ctx)))
      × (switch_to_number (suc n) ctx ≡ ok (opened ctx (get_elem? (conversations ctx) n)))
switch_to_number_lem n ctx = (
  unfold get_status_line in ap (λ ps. codes "Active: " ++ join_spaces ps) (status_parts_lem ctx),
  switch_to_number-suc n ctx,
)
