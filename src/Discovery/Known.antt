-- ===== src/Discovery/Known.antt =====
-- The known addresses of daemon/discovery.py.
use bitchat_node_daemon.Base.{
  ◌≡◌, refl, ap, ◌∙◌, inl, inr, Bool, true, false, ◌||◌, Option, none, some, List, [], ◌∷◌, ◌++◌,
  map, map-append, arith, Bool-cases,
}
use bitchat_node_daemon.Base.Bytes.{Text, eq_text}
use bitchat_node_daemon.Base.Dict.{member, add, member-add, Distinct, Distinct-append}
use bitchat_node_daemon.Discovery.{
  Discovery, new_discovery, host_port, add_manual, with_port, read_parts, hear, read_entry,
  connect_bootstrap, connect_all, read_change, on_change, Event, changed, added, stopped, stop,
  happen, happen_all,
}
use bitchat_node_daemon.Base.Integers.{ℤ, write_integer, read-write_integer, write_integer-Lacks}
use bitchat_node_daemon.Base.Texts.{rsplit_once-append}

abbrev pub address : Text × ℤ → Text
address (host, port) = host_port host port

-- What an event tells.
unfoldable pub told : Event → Option (Text × ℤ)
unfolding read_change
told (changed change) = read_change change
told (added host port) = some (host, port)
told stopped = none

abbrev pub asked : Text → List (Option (Text × ℤ)) → Bool
asked a [] = false
asked a (none ∷ rs) = asked a rs
asked a (some r ∷ rs) = eq_text (address r) a || asked a rs

-- The callback is set, and what it was called with are the known addresses, each once.
record IsFaithful (d : Discovery) : Type 0 where
  wired : d.is_wired ≡ true
  reported : map address d.found ≡ d.known
  distinct : Distinct d.known

add_manual-IsFaithful :
    (host : Text) (port : ℤ) (d : Discovery) → IsFaithful d → IsFaithful (add_manual host port d)
unfolding add_manual add
add_manual-IsFaithful host port d h = elim (Bool-cases (member (host_port host port) d.known)) [
  | inl e ↦ rw e h
  | inr e ↦ rw e (record {
    wired = h.wired;
    reported = rw h.wired (map-append address d.found ((host, port) ∷ []) ∙ rw h.reported refl);
    distinct = Distinct-append _ d.known h.distinct e;
  })
]

add_manual-known :
    (host : Text) (port : ℤ) (d : Discovery)
    → (add_manual host port d).known ≡ add (host_port host port) d.known
unfolding add_manual add
add_manual-known host port d = elim (Bool-cases (member (host_port host port) d.known)) [
  | inl e ↦ rw e refl
  | inr e ↦ rw e refl
]

hear-IsFaithful : (r : Option (Text × ℤ)) (d : Discovery) → IsFaithful d → IsFaithful (hear r d)
unfolding hear
hear-IsFaithful none d h = h
hear-IsFaithful (some (host, port)) d h = add_manual-IsFaithful host port d h

-- What is known after something was heard.
hear-known :
    (a : Text) (r : Option (Text × ℤ)) (d : Discovery)
    → member a (hear r d).known ≡ member a d.known || asked a (r ∷ [])
unfolding hear
hear-known a none d = ground arith
hear-known a (some (host, port)) d =
    rw (add_manual-known host port d, member-add (host_port host port) a d.known) (ground arith)

asked-append :
    (a : Text) (rs qs : List (Option (Text × ℤ))) → asked a (rs ++ qs) ≡ asked a rs || asked a qs
asked-append a [] qs = refl
asked-append a (none ∷ rs) qs = asked-append a rs qs
asked-append a (some r ∷ rs) qs = ground (arith, asked-append a rs qs)

happen-IsFaithful : (e : Event) (d : Discovery) → IsFaithful d → IsFaithful (happen e d)
unfolding happen stop on_change
happen-IsFaithful (changed change) d h = hear-IsFaithful (read_change change) d h
happen-IsFaithful (added host port) d h = add_manual-IsFaithful host port d h
happen-IsFaithful stopped d h = record {
  wired = h.wired;
  reported = h.reported;
  distinct = h.distinct;
}

happen-known :
    (a : Text) (e : Event) (d : Discovery)
    → member a (happen e d).known ≡ member a d.known || asked a (told e ∷ [])
unfolding happen stop told on_change
happen-known a (changed change) d = hear-known a (read_change change) d
happen-known a (added host port) d = unfold hear in hear-known a (some (host, port)) d
happen-known a stopped d = ground arith

connect_all-IsFaithful :
    (entries : List Text) (d : Discovery) → IsFaithful d → IsFaithful (connect_all entries d)
unfolding connect_all connect_bootstrap
connect_all-IsFaithful [] d h = h
connect_all-IsFaithful (entry ∷ entries) d h =
    connect_all-IsFaithful entries (connect_bootstrap entry d)
      (hear-IsFaithful (read_entry entry) d h)

connect_all-known :
    (a : Text) (entries : List Text) (d : Discovery)
    → member a (connect_all entries d).known ≡ member a d.known || asked a (map read_entry entries)
unfolding connect_all connect_bootstrap
connect_all-known a [] d = ground arith
connect_all-known a (entry ∷ entries) d = ground (
  arith,
  connect_all-known a entries (connect_bootstrap entry d),
  hear-known a (read_entry entry) d,
  asked-append a (read_entry entry ∷ []) (map read_entry entries),
)

happen_all-IsFaithful :
    (es : List Event) (d : Discovery) → IsFaithful d → IsFaithful (happen_all es d)
unfolding happen_all
happen_all-IsFaithful [] d h = h
happen_all-IsFaithful (e ∷ es) d h = happen_all-IsFaithful es (happen e d) (happen-IsFaithful e d h)

happen_all-known :
    (a : Text) (es : List Event) (d : Discovery)
    → member a (happen_all es d).known ≡ member a d.known || asked a (map told es)
unfolding happen_all
happen_all-known a [] d = ground arith
happen_all-known a (e ∷ es) d = ground (
  arith,
  happen_all-known a es (happen e d),
  happen-known a e d,
  asked-append a (told e ∷ []) (map told es),
)

-- A discovery whose callback is set, before its start.
abbrev pub wired : Bool → List Text → Discovery
wired mdns entries = record (new_discovery mdns entries) { is_wired = true }

-- After a pass over the bootstrap entries and any sequence of mDNS changes, manual additions and
-- stops, the callback was called for no address twice, and it was called for an address
-- exactly if an entry, a change or an addition named it.
pub reports_once :
    (mdns : Bool) (entries : List Text) (es : List Event) (a : Text)
    → Distinct (map address (happen_all es (connect_all entries (wired mdns entries))).found)
      × (member a (map address (happen_all es (connect_all entries (wired mdns entries))).found)
          ≡ asked a (map read_entry entries ++ map told es))
reports_once mdns entries es a =
    let d0 = wired mdns entries in
    let h0 : IsFaithful d0 =
      unfold new_discovery in record { wired = refl; reported = refl; distinct = tt } in
    let d1 = connect_all entries d0 in
    let h = happen_all-IsFaithful es d1 (connect_all-IsFaithful entries d0 h0) in
    let empty : member a d0.known ≡ false = unfold new_discovery member in refl in
    (
      rw h.reported h.distinct,
      rw h.reported (
          happen_all-known a es d1
          ∙ ground (
            arith,
            connect_all-known a entries d0,
            asked-append a (map read_entry entries) (map told es),
            empty,
          )),
    )

read_entry-host_port :
    (host : Text) (port : ℤ) → read_entry (host_port host port) ≡ some (host, port)
unfolding read_entry host_port with_port read_parts
read_entry-host_port host port =
    rw
      (rsplit_once-append b':' host (write_integer port)
        (write_integer-Lacks b':' port (omega arith)))
      (ap (with_port host) (read-write_integer port))

-- A bootstrap entry that is written as a host, a colon and a port does what adding that host and
-- port by hand does, also where the host has colons of its own.
pub connect_bootstrap-host_port :
    (host : Text) (port : ℤ) (d : Discovery)
    → connect_bootstrap (host_port host port) d ≡ add_manual host port d
unfolding connect_bootstrap
connect_bootstrap-host_port host port d = rw (read_entry-host_port host port) (unfold hear in refl)
