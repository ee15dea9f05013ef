-- ===== src/Config.antt =====
-- daemon/config.py: the defaults, the merge of the file into them, and the overrides; with the options
-- that `main` of daemon/__main__.py puts on top.
use bitchat_node_daemon.Base.{
  zero, suc, Bool, true, Option, none, some, List, [], ◌∷◌, if◌then◌else◌, Result, ok, err, ◌>>=◌,
  key_error, type_error,
}
use bitchat_node_daemon.Base.Bytes.{Text, eq_text}
use bitchat_node_daemon.Base.Texts.{codes, strip, split}
use bitchat_node_daemon.Base.Integers.{ℤ, pos, negsuc, read_integer}
pub mod Trees
pub mod Merge

-- A tree of YAML values.
mutual
  pub data Value : Type 0 where
    null : Value
    boolean : Bool → Value
    number : ℤ → Value
    text : Text → Value
    items : Values → Value
    fields : Fields → Value

  pub data Values : Type 0 where
    nil : Values
    cons : Value → Values → Values

  pub data Fields : Type 0 where
    end : Fields
    field : Text → Value → Fields → Fields

-- `d.get(k)`
unfoldable pub get : Text → Fields → Option Value
get k end = none
get k (field j v rest) = if eq_text j k then some v else get k rest

-- `d[k] = v`
unfoldable pub put : Text → Value → Fields → Fields
put k v end = field k v end
put k v (field j w rest) = if eq_text j k then field j v rest else field j w (put k v rest)

put_if : Text → Option Value → Fields → Fields
put_if k none base = base
put_if k (some v) base = put k v base

-- `_deep_merge`, overlay first, and what it writes for a value over the one that is there.
unfoldable mutual
  unfolding put_if

  pub deep_merge : Fields → Fields → Fields
  deep_merge end base = base
  deep_merge (field key v rest) base = deep_merge rest (put_if key (merged v (get key base)) base)

  pub merged : Value → Option Value → Option Value
  merged null old = none
  merged (boolean b) old = some (boolean b)
  merged (number n) old = some (number n)
  merged (text t) old = some (text t)
  merged (items vs) old = some (items vs)
  merged (fields overlay) (some (fields base)) = some (fields (deep_merge overlay base))
  merged (fields overlay) (some null) = some (fields overlay)
  merged (fields overlay) (some (boolean b)) = some (fields overlay)
  merged (fields overlay) (some (number n)) = some (fields overlay)
  merged (fields overlay) (some (text t)) = some (fields overlay)
  merged (fields overlay) (some (items vs)) = some (fields overlay)
  merged (fields overlay) none = some (fields overlay)

-- `DEFAULT_CONFIG`, with the directory that `expanduser` gives.
unfoldable pub default_config : Text → Fields
default_config data_dir =
    field (codes "node")
      (fields (
        field (codes "port") (number (pos 8765)) (
          field (codes "listen") (text (codes "0.0.0.0")) (
            field (codes "nickname") (text (codes "bitchat-node"))
              (field (codes "data_dir") (text data_dir) end)))))
      (field (codes "mesh")
        (fields (
          field (codes "bootstrap_nodes") (items nil) (
            field (codes "max_peers") (number (pos 50))
              (field (codes "default_ttl") (number (pos 7)) end))))
        (field (codes "discovery")
          (fields (
            field (codes "mdns") (boolean true)
              (field (codes "mdns_service") (text (codes "_bitchat._tcp")) end)))
          (field (codes "api")
            (fields (
              field (codes "rest_port") (number (pos 8080)) (
                field (codes "ws_port") (number (pos 8080))
                  (field (codes "host") (text (codes "127.0.0.1")) end))))
            (field (codes "logging")
              (fields (field (codes "level") (text (codes "INFO")) (field (codes "file") null end)))
              end))))

-- `config[section][key] = v`
unfoldable pub set_in : Text → Text → Value → Fields → Result Fields
unfolding put get
set_in section key v config = elim (get section config) [
  | none ↦ err key_error
  | some (fields f) ↦ ok (put section (fields (put key v f)) config)
  | some _ ↦ err type_error
]

-- The variables of the environment; an empty one counts as unset.
pub record Environment : Type 0 where
  pub port : Option Text
  pub api_port : Option Text
  pub nickname : Option Text
  pub api_host : Option Text
  pub bootstrap : Option Text

abbrev if_set : {A : Type 0} → Option Text → A → (Text → A) → A
if_set none unset f = unset
if_set (some []) unset f = unset
if_set (some (x ∷ t)) unset f = f (x ∷ t)

set_number : Text → Text → Text → Fields → Result Fields
unfolding set_in read_integer
set_number section key t config = do n ← read_integer t; set_in section key (number n) config

entries : List Text → Values
unfolding strip
entries [] = nil
entries (part ∷ parts) = cons (text (strip part)) (entries parts)

-- The second half of `load_config`.
unfoldable pub override : Environment → Fields → Result Fields
unfolding set_number set_in entries split
override env c0 = do
  c1 ← if_set env.port (ok c0) (λ t. set_number (codes "node") (codes "port") t c0)
  c2 ← if_set env.api_port (ok c1) (λ t. set_number (codes "api") (codes "rest_port") t c1)
  c3 ← if_set env.api_port (ok c2) (λ t. set_number (codes "api") (codes "ws_port") t c2)
  c4 ← if_set env.nickname (ok c3) (λ t. set_in (codes "node") (codes "nickname") (text t) c3)
  c5 ← if_set env.api_host (ok c4) (λ t. set_in (codes "api") (codes "host") (text t) c4)
  if_set env.bootstrap (ok c5)
      (λ t. set_in (codes "mesh") (codes "bootstrap_nodes") (items (entries (split b',' t))) c5)

-- What is at the path of the configuration: no file, one that YAML cannot read, or a value.
pub data File : Type 0 where
  missing unreadable : File
  holds : Value → File

-- The first half of `load_config`: a value that is not a mapping has no items, which is caught.
unfoldable pub merge_file : File → Fields → Fields
unfolding deep_merge
merge_file (holds (fields user)) config = deep_merge user config
merge_file _ config = config

unfoldable pub load_config : Text → File → Environment → Result Fields
unfolding default_config merge_file override
load_config data_dir file env = override env (merge_file file (default_config data_dir))

-- The command line of `main`; a port of 0 counts as not given.
pub record Arguments : Type 0 where
  pub port : Option ℤ
  pub api_port : Option ℤ
  pub nickname : Option Text
  pub debug : Bool

abbrev if_port : {A : Type 0} → Option ℤ → A → (ℤ → A) → A
if_port none unset f = unset
if_port (some (pos zero)) unset f = unset
if_port (some (pos (suc n))) unset f = f (pos (suc n))
if_port (some (negsuc n)) unset f = f (negsuc n)

unfoldable pub apply_arguments : Arguments → Fields → Result Fields
unfolding set_in
apply_arguments args c0 = do
  c1 ← if_port args.port (ok c0) (λ n. set_in (codes "node") (codes "port") (number n) c0)
  c2 ← if_port args.api_port (ok c1) (λ n. set_in (codes "api") (codes "rest_port") (number n) c1)
  c3 ← if_port args.api_port (ok c2) (λ n. set_in (codes "api") (codes "ws_port") (number n) c2)
  c4 ← if_set args.nickname (ok c3) (λ t. set_in (codes "node") (codes "nickname") (text t) c3)
  if args.debug then set_in (codes "logging") (codes "level") (text (codes "DEBUG")) c4 else ok c4
