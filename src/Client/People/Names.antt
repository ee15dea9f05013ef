-- ===== src/Client/People/Names.antt =====
-- The nickname of a client of bitchat.py.
use bitchat_node_daemon.Base.{
  ◌≤◌, ◌<◌, ◌≡◌, refl, ap, ◌∙◌, inl, inr, true, none, arith, if◌then◌else◌, Bool-cases, length,
  drop,
}
use bitchat_node_daemon.Base.Bytes.{Text}
use bitchat_node_daemon.Base.Texts.{strip}
use bitchat_node_daemon.Client.{Client, Outside, save_app_state}
use bitchat_node_daemon.Client.Sending.{after, send_with_ttl-held, then_do-keeps}
use bitchat_node_daemon.Client.Channels.{silently}
use bitchat_node_daemon.Client.People.{is_nickname, set_name, handle_name}

module _ (w : Outside) where
  saved-nickname : (c : Client) → (after (silently (save_app_state c))).nickname ≡ c.nickname
  unfolding save_app_state
  saved-nickname c = refl

  set_name-nickname :
      (name : Text) (c : Client)
      → (after (set_name w name c)).nickname ≡ (if is_nickname w name then name else c.nickname)
  unfolding set_name
  set_name-nickname name c = elim (Bool-cases (is_nickname w name)) [
    | inr e ↦ rw e refl
    | inl e ↦ rw e (
        then_do-keeps (λ c'. c'.nickname) _ _ saved-nickname
        ∙ ap (λ h. h.nickname) (send_with_ttl-held w none _ (record c { nickname = name })))
  ]

  is_nickname-bounds :
      (name : Text) → is_nickname w name ≡ true → (0 < length name) × (length name ≤ 20)
  unfolding is_nickname
  is_nickname-bounds name e = ground arith

  -- The command /name keeps to the rules for nicknames: whatever is typed behind it, a client whose nickname follows
  -- them has such a nickname afterwards, of one to twenty characters, which is the text without white
  -- space around it if that follows the rules, and the old one otherwise.
  pub handle_name_bounds :
      (line : Text) (c : Client)
      → is_nickname w c.nickname ≡ true
      → (0 < length (after (handle_name w line c)).nickname)
        × (length (after (handle_name w line c)).nickname ≤ 20)
        × (is_nickname w (after (handle_name w line c)).nickname ≡ true)
        × ((after (handle_name w line c)).nickname
            ≡ (if is_nickname w (strip (drop 6 line)) then strip (drop 6 line) else c.nickname))
  unfolding handle_name
  handle_name_bounds line c h =
      let name : Text = strip (drop 6 line) in
      let e = set_name-nickname name c in
      let good : is_nickname w (if is_nickname w name then name else c.nickname) ≡ true =
        elim (Bool-cases (is_nickname w name)) [
          | inl b ↦ rw (b, b) refl
          | inr b ↦ rw (b, h) refl
        ] in
      let good' : is_nickname w (after (set_name w name c)).nickname ≡ true = rw e good in
      let (low, high) = is_nickname-bounds (after (set_name w name c)).nickname good' in
      (low, high, good', e)
