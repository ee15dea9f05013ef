-- ===== src/Client/People/Blocking.antt =====
-- Blocking and unblocking by the commands of bitchat.py.
use bitchat_node_daemon.Base.{
  ℕ, ◌≡◌, refl, ap, ◌∙◌, true, false, ◌||◌, some, List, [], ◌∷◌, ◌++◌, arith,
}
use bitchat_node_daemon.Base.Bytes.{Text, eq_text, eq_text_refl}
use bitchat_node_daemon.Base.Dict.{member, add, discard}
use bitchat_node_daemon.Client.{Client, Outside, save_app_state}
use bitchat_node_daemon.Client.Sending.{after}
use bitchat_node_daemon.Client.Channels.{silently}
use bitchat_node_daemon.Client.People.{
  fingerprint_named, block_fingerprint, unblock_fingerprint, block, unblock,
}

member-last : (x : Text) (s : List Text) → member x (s ++ x ∷ []) ≡ true
unfolding member
member-last x [] = rw (eq_text_refl x) refl
member-last x (y ∷ s) = ground (arith, member-last x s)

discard-append : (x : Text) (s : List Text) → member x s ≡ false → discard x (s ++ x ∷ []) ≡ s
unfolding discard
discard-append x [] e = rw (eq_text_refl x) refl
discard-append x (y ∷ s) e =
    let e' : (eq_text y x || member x s) ≡ false = unfold member in e in
    let ne : eq_text y x ≡ false = ground arith in
    rw ne (ap (λ r. y ∷ r) (discard-append x s (ground arith)))

module _ (w : Outside) where
  abbrev with_blocked : List Text → Client → Client
  with_blocked s c = record c { blocked_peers = s }

  block_new :
      (x : ℕ) (fp : Text) (c : Client)
      → member (x ∷ fp) c.blocked_peers ≡ false
      → block_fingerprint w (some (x ∷ fp)) c
        ≡ silently (save_app_state (with_blocked (c.blocked_peers ++ (x ∷ fp) ∷ []) c))
  unfolding block_fingerprint add
  block_new x fp c e = rw e refl

  unblock_known :
      (x : ℕ) (fp : Text) (c : Client)
      → member (x ∷ fp) c.blocked_peers ≡ true
      → unblock_fingerprint w (some (x ∷ fp)) c
        ≡ silently (save_app_state (with_blocked (discard (x ∷ fp) c.blocked_peers) c))
  unfolding unblock_fingerprint
  unblock_known x fp c e = rw e refl

  saved-blocked :
      (c : Client) → (after (silently (save_app_state c))).blocked_peers ≡ c.blocked_peers
  unfolding save_app_state
  saved-blocked c = refl

  saved-named :
      (target : Text) (s : List Text) (c : Client)
      → fingerprint_named w target (after (silently (save_app_state (with_blocked s c))))
        ≡ fingerprint_named w target c
  unfolding save_app_state fingerprint_named
  saved-named target s c = refl

  block_lem :
      (target fp : Text) (x : ℕ) (c : Client)
      → fingerprint_named w target c ≡ some (x ∷ fp)
      → member (x ∷ fp) c.blocked_peers ≡ false
      → block w target c
        ≡ silently (save_app_state (with_blocked (c.blocked_peers ++ (x ∷ fp) ∷ []) c))
  unfolding block
  block_lem target fp x c e new = ap (λ o. block_fingerprint w o c) e ∙ block_new x fp c new

  unblock_lem :
      (target fp : Text) (x : ℕ) (c : Client)
      → fingerprint_named w target c ≡ some (x ∷ fp)
      → member (x ∷ fp) c.blocked_peers ≡ true
      → (after (unblock w target c)).blocked_peers ≡ discard (x ∷ fp) c.blocked_peers
  unfolding unblock
  unblock_lem target fp x c e known =
      ap (λ o. (after (unblock_fingerprint w o c)).blocked_peers) e
      ∙ ap (λ d. (after d).blocked_peers) (unblock_known x fp c known)
      ∙ saved-blocked (with_blocked (discard (x ∷ fp) c.blocked_peers) c)

  -- A peer whose session gives its fingerprint, and that is not blocked, is blocked by /block, and /unblock
  -- with the same nickname takes the block back.
  pub unblock-block :
      (target fp : Text) (x : ℕ) (c : Client)
      → fingerprint_named w target c ≡ some (x ∷ fp)
      → member (x ∷ fp) c.blocked_peers ≡ false
      → (member (x ∷ fp) (after (block w target c)).blocked_peers ≡ true)
        × ((after (unblock w target (after (block w target c)))).blocked_peers ≡ c.blocked_peers)
  unblock-block target fp x c e new =
      let s = c.blocked_peers ++ (x ∷ fp) ∷ [] in
      let saved : Client = after (silently (save_app_state (with_blocked s c))) in
      let b : after (block w target c) ≡ saved = ap after (block_lem target fp x c e new) in
      let blocked : saved.blocked_peers ≡ s = saved-blocked (with_blocked s c) in
      let known : member (x ∷ fp) saved.blocked_peers ≡ true =
        ap (member (x ∷ fp)) blocked ∙ member-last (x ∷ fp) c.blocked_peers in
      (
        ap (λ k. member (x ∷ fp) k.blocked_peers) b ∙ known,
        ap (λ k. (after (unblock w target k)).blocked_peers) b
            ∙ unblock_lem target fp x saved (saved-named target s c ∙ e) known
            ∙ ap (discard (x ∷ fp)) blocked
            ∙ discard-append (x ∷ fp) c.blocked_peers new,
      )
