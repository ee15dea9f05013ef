-- ===== src/Persistence/Saving.antt =====
-- The state of bitchat/persistence.py through its JSON document and back.
use bitchat_node_daemon.Base.{
  ℕ, ◌≡◌, refl, subst, inl, inr, not, Option, none, some, List, [], ◌∷◌, map, ok, guard, >>=-eq-ok,
  ok-injective, Result-cases, type_error,
}
use bitchat_node_daemon.Base.Dict.{Dict, Distinct, to_set-Distinct, to_set-IsDistinct}
use bitchat_node_daemon.Persistence.{
  EncryptedPassword, AppState, new_state, Document, File, missing, unreadable, holds, read_password,
  read_passwords, read_document, write_password, save_state, or_new_state, read_file, with_identity,
  load_state, or_else,
}

read_passwords-write :
    (ps : Dict EncryptedPassword)
    → read_passwords (map (λ (channel, ep). (channel, write_password ep)) ps) ≡ ok ps
unfolding read_passwords read_password write_password
read_passwords-write [] = refl
read_passwords-write ((channel, ep) ∷ ps) = rw (read_passwords-write ps) refl

-- The three sets of a state.
pub record HasSets (state : AppState) : Type 0 where
  pub blocked : Distinct state.blocked_peers
  pub protected : Distinct state.password_protected_channels
  pub favorite : Distinct state.favorites

read-save_state : (state : AppState) → HasSets state → read_document (save_state state) ≡ ok state
unfolding read_document save_state
read-save_state state h =
    rw
      (
        read_passwords-write state.encrypted_channel_passwords,
        to_set-Distinct state.blocked_peers h.blocked,
        to_set-Distinct state.password_protected_channels h.protected,
        to_set-Distinct state.favorites h.favorite,
      )
      refl

-- A state that has an identity key is loaded as it was saved, and the file is left as it is.
pub load-save_state :
    (state : AppState) (key fresh : List ℕ)
    → HasSets state
    → state.identity_key ≡ some key
    → load_state fresh (holds (save_state state)) ≡ (state, holds (save_state state))
unfolding load_state read_file
load-save_state state key fresh h e = rw (read-save_state state h, e) refl

read_document-HasSets :
    (written : Document) (state : AppState) → read_document written ≡ ok state → HasSets state
unfolding read_document
read_document-HasSets written state e =
    let (passwords, p, e1) =
      >>=-eq-ok (read_passwords (or_else written.encrypted_channel_passwords [])) _ e in
    let (done, g, e2) = >>=-eq-ok (guard (not written.has_other_keys) type_error) _ e1 in
    subst HasSets (ok-injective e2) (record {
      blocked = to_set-IsDistinct (or_else written.blocked_peers []);
      protected = to_set-IsDistinct (or_else written.password_protected_channels []);
      favorite = to_set-IsDistinct (or_else written.favorites []);
    })

new_state-HasSets : HasSets new_state
unfolding new_state
new_state-HasSets = record { blocked = tt; protected = tt; favorite = tt }

read_file-HasSets : (file : File) → HasSets (read_file file)
unfolding read_file
read_file-HasSets missing = new_state-HasSets
read_file-HasSets unreadable = new_state-HasSets
read_file-HasSets (holds written) = elim (Result-cases (read_document written)) [
  | inl (state, e) ↦ rw e (unfold or_new_state in read_document-HasSets written state e)
  | inr (raised, e) ↦ rw e (unfold or_new_state in new_state-HasSets)
]

with_identity_twice :
    (fresh fresh' : List ℕ) (key : Option (List ℕ)) (state : AppState) (file : File)
    → read_file file ≡ state
    → state.identity_key ≡ key
    → HasSets state
    → load_state fresh' (with_identity fresh key state file).1 ≡ with_identity fresh key state file
unfolding with_identity
with_identity_twice fresh fresh' (some key) state file r k h =
    unfold load_state in rw (r, k) (unfold with_identity in refl)
with_identity_twice fresh fresh' none state file r k h =
    load-save_state (record state { identity_key = some fresh }) fresh fresh'
      (record { blocked = h.blocked; protected = h.protected; favorite = h.favorite }) refl

-- Whatever is at the path, a second load gives the state of the first one and leaves the same file: an
-- identity key is generated at most once.
pub load_state_twice :
    (fresh fresh' : List ℕ) (file : File)
    → load_state fresh' (load_state fresh file).1 ≡ load_state fresh file
load_state_twice fresh fresh' file =
    unfold load_state in
    with_identity_twice fresh fresh' (read_file file).identity_key (read_file file) file refl refl
      (read_file-HasSets file)
