-- ===== src/Discovery.antt =====
-- daemon/discovery.py: the addresses of other nodes, each passed on when it is first heard of.
use bitchat_node_daemon.Base.{
  ℕ, Bool, true, false, ◌&&◌, Option, none, some, List, [], ◌∷◌, ◌++◌, ◌==◌, if◌then◌else◌, Result,
  ok, err,
}
use bitchat_node_daemon.Base.Bytes.{Text}
use bitchat_node_daemon.Base.Dict.{member, add}
use bitchat_node_daemon.Base.Texts.{rsplit_once}
use bitchat_node_daemon.Base.Integers.{ℤ, write_integer, read_integer}
pub mod Known
pub mod Running

-- `found` is the list of the calls of `on_peer_found`, in order; `is_wired` says whether that
-- callback is set. The service type and the zeroconf object are left out.
pub record Discovery : Type 0 where
  pub mdns_enabled : Bool
  pub bootstrap_nodes : List Text
  pub known : List Text
  pub running : Bool
  pub is_wired : Bool
  pub found : List (Text × ℤ)

unfoldable pub new_discovery : Bool → List Text → Discovery
new_discovery mdns_enabled bootstrap_nodes = record {
  mdns_enabled = mdns_enabled;
  bootstrap_nodes = bootstrap_nodes;
  known = [];
  running = false;
  is_wired = false;
  found = [];
}

-- `f"{host}:{port}"`
unfoldable pub host_port : Text → ℤ → Text
host_port host port = host ++ b':' ∷ write_integer port

-- `if self.on_peer_found: self.on_peer_found(host, port)`
abbrev report : Text → ℤ → Discovery → Discovery
report host port d = record d {
  found = if d.is_wired then d.found ++ (host, port) ∷ [] else d.found;
}

unfoldable pub add_manual : Text → ℤ → Discovery → Discovery
unfolding member add
add_manual host port d =
    let addr = host_port host port in
    if member addr d.known then d else report host port (record d { known = add addr d.known })

-- What is told to `add_manual`, where something is.
unfoldable pub hear : Option (Text × ℤ) → Discovery → Discovery
unfolding add_manual
hear none d = d
hear (some (host, port)) d = add_manual host port d

with_port : Text → Result ℤ → Option (Text × ℤ)
with_port host (err raised) = none
with_port host (ok port) = some (host, port)

read_parts : Option (Text × Text) → Option (Text × ℤ)
unfolding read_integer with_port
read_parts none = none
read_parts (some (host, port_str)) = with_port host (read_integer port_str)

-- What `_connect_bootstrap` reads of an entry; an entry that it cannot read is logged.
unfoldable pub read_entry : Text → Option (Text × ℤ)
unfolding rsplit_once read_parts
read_entry entry = read_parts (rsplit_once b':' entry)

unfoldable pub connect_bootstrap : Text → Discovery → Discovery
unfolding read_entry hear
connect_bootstrap entry d = hear (read_entry entry) d

unfoldable pub connect_all : List Text → Discovery → Discovery
unfolding connect_bootstrap
connect_all [] d = d
connect_all (entry ∷ entries) d = connect_all entries (connect_bootstrap entry d)

-- A change of a service that zeroconf reports: whether it was added, and the server and port
-- that zeroconf has about it, if it has them.
pub record Change : Type 0 where
  pub is_added : Bool
  pub info : Option (Text × ℤ)

dot_left : Text → Text
dot_left [] = []
dot_left (x ∷ xs) = if x == b'.' then dot_left xs else x ∷ xs

dot_keep : ℕ → Text → Text
dot_keep x [] = if x == b'.' then [] else x ∷ []
dot_keep x (y ∷ ys) = x ∷ y ∷ ys

dot_right : Text → Text
dot_right [] = []
dot_right (x ∷ xs) = dot_keep x (dot_right xs)

-- `server.strip('.')`
unfoldable pub strip_dots : Text → Text
unfolding dot_left dot_right dot_keep
strip_dots t = dot_right (dot_left t)

without_dots : Option (Text × ℤ) → Option (Text × ℤ)
unfolding strip_dots
without_dots none = none
without_dots (some (server, port)) = some (strip_dots server, port)

unfoldable pub read_change : Change → Option (Text × ℤ)
unfolding without_dots
read_change change = if change.is_added then without_dots change.info else none

unfoldable pub on_change : Change → Discovery → Discovery
unfolding read_change hear
on_change change d = hear (read_change change) d

-- What may happen while `start` sleeps. `stop` also closes zeroconf.
pub data Event : Type 0 where
  changed : Change → Event
  added : Text → ℤ → Event
  stopped : Event

unfoldable pub stop : Discovery → Discovery
stop d = record d { running = false }

unfoldable pub happen : Event → Discovery → Discovery
unfolding on_change add_manual stop
happen (changed change) d = on_change change d
happen (added host port) d = add_manual host port d
happen stopped d = stop d

unfoldable pub happen_all : List Event → Discovery → Discovery
unfolding happen
happen_all [] d = d
happen_all (e ∷ es) d = happen_all es (happen e d)

-- `while self._running: await asyncio.sleep(1)`: each list is what happens during one sleep, and
-- where the lists are used up the loop has not ended.
unfoldable pub keep_alive : List (List Event) → Discovery → Option Discovery
unfolding happen_all
keep_alive [] d = if d.running then none else some d
keep_alive (es ∷ rest) d =
    let later = keep_alive rest (happen_all es d) in if d.running then later else some d

-- `start`, with what happens in each second after it. Zeroconf may be missing or fail (`mdns_works`
-- is false), which is logged.
unfoldable pub start : Bool → List (List Event) → Discovery → Option Discovery
unfolding connect_all keep_alive
start mdns_works seconds d =
    let d' = connect_all d.bootstrap_nodes (record d { running = true }) in
    if d.mdns_enabled && mdns_works then keep_alive seconds d' else some d'
