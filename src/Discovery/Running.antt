-- ===== src/Discovery/Running.antt =====
-- When the start of daemon/discovery.py returns.
use bitchat_node_daemon.Base.{
  ◌≡◌, refl, ◌∙◌, inl, inr, Bool, true, false, ◌&&◌, ◌||◌, Option, none, some, List, [], ◌∷◌,
  if◌then◌else◌, Bool-cases, is_some,
}
use bitchat_node_daemon.Base.Bytes.{Text}
use bitchat_node_daemon.Base.Dict.{member}
use bitchat_node_daemon.Discovery.{
  Discovery, host_port, add_manual, hear, read_entry, connect_bootstrap, connect_all, read_change,
  on_change, Event, changed, added, stopped, stop, happen, happen_all, keep_alive, start,
}
use bitchat_node_daemon.Base.Integers.{ℤ}

-- Whether `stop` is called in one of the seconds.
abbrev pub stops : List Event → Bool
stops [] = false
stops (stopped ∷ es) = true
stops (changed change ∷ es) = stops es
stops (added host port ∷ es) = stops es

abbrev pub stops_within : List (List Event) → Bool
stops_within [] = false
stops_within (es ∷ rest) = stops es || stops_within rest

if_running :
    (b : Bool) (d d' : Discovery)
    → d'.running ≡ d.running
    → (if b then d else d').running ≡ d.running
if_running true d d' e = refl
if_running false d d' e = e

add_manual-running :
    (host : Text) (port : ℤ) (d : Discovery) → (add_manual host port d).running ≡ d.running
unfolding add_manual
add_manual-running host port d = if_running (member (host_port host port) d.known) d _ refl

hear-running : (heard : Option (Text × ℤ)) (d : Discovery) → (hear heard d).running ≡ d.running
unfolding hear
hear-running none d = refl
hear-running (some (host, port)) d = add_manual-running host port d

connect_all-running :
    (entries : List Text) (d : Discovery) → (connect_all entries d).running ≡ d.running
unfolding connect_all connect_bootstrap
connect_all-running [] d = refl
connect_all-running (entry ∷ entries) d =
    connect_all-running entries (connect_bootstrap entry d) ∙ hear-running (read_entry entry) d

if_same : (b : Bool) → (if b then false else false) ≡ false
if_same true = refl
if_same false = refl

-- Nothing sets `running` again but `start`.
happen_all-running :
    (es : List Event) (d : Discovery)
    → (happen_all es d).running ≡ (if stops es then false else d.running)
unfolding happen_all happen stop on_change
happen_all-running [] d = refl
happen_all-running (stopped ∷ es) d = happen_all-running es (stop d) ∙ if_same (stops es)
happen_all-running (changed change ∷ es) d =
    rw (happen_all-running es (on_change change d), hear-running (read_change change) d) refl
happen_all-running (added host port ∷ es) d =
    rw (happen_all-running es (add_manual host port d), add_manual-running host port d) refl

keep_alive_done :
    (seconds : List (List Event)) (d : Discovery)
    → d.running ≡ false
    → is_some (keep_alive seconds d) ≡ true
unfolding keep_alive
keep_alive_done [] d e = rw e refl
keep_alive_done (es ∷ rest) d e = rw e refl

keep_alive_lem :
    (seconds : List (List Event)) (d : Discovery)
    → d.running ≡ true
    → is_some (keep_alive seconds d) ≡ stops_within seconds
unfolding keep_alive
keep_alive_lem [] d e = rw e refl
keep_alive_lem (es ∷ rest) d e = elim (Bool-cases (stops es)) [
  | inl s ↦
      simp (e, s) (keep_alive_done rest (happen_all es d) (happen_all-running es d ∙ rw s refl))
  | inr s ↦ simp (e, s) (keep_alive_lem rest (happen_all es d) (happen_all-running es d ∙ rw s e))
]

-- Where mDNS is enabled and works, `start` returns exactly if `stop` is called in one of the seconds
-- after it; otherwise it returns at once.
pub start_returns :
    (mdns_works : Bool) (seconds : List (List Event)) (d : Discovery)
    → is_some (start mdns_works seconds d)
      ≡ (if d.mdns_enabled && mdns_works then stops_within seconds else true)
unfolding start
start_returns mdns_works seconds d =
    let began : Discovery = record d { running = true } in
    elim (Bool-cases (d.mdns_enabled && mdns_works)) [
      | inl e ↦ rw e (
          keep_alive_lem seconds (connect_all d.bootstrap_nodes began)
            (connect_all-running d.bootstrap_nodes began))
      | inr e ↦ rw e refl
    ]
