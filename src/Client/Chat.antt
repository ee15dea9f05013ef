-- ===== src/Client/Chat.antt =====
-- `ChatContext` of bitchat/terminal_ux.py: the conversations of a user and the one that is open.
use bitchat_node_daemon.Base.{
  ℕ, suc, ◌+◌, ◌-◌, Bool, true, false, ◌&&◌, ◌||◌, Option, none, some, List, [], ◌∷◌, ◌++◌, ltb,
  leb, ◌==◌, if◌then◌else◌, length, get_elem?, replicate, Result, ok, err, index_error,
}
use bitchat_node_daemon.Base.Bytes.{Text, eq_text}
use bitchat_node_daemon.Base.Dict.{Dict, insert, add}
use bitchat_node_daemon.Base.Texts.{codes}
use bitchat_node_daemon.Base.Decimal.{decimal}
pub mod Numbers
pub mod Listed

pub data ChatMode : Type 0 where
  public : ChatMode
  channel : Text → ChatMode
  private_dm : Text → Text → ChatMode

-- `active_dms` goes from nicknames to peer ids.
pub record ChatContext : Type 0 where
  pub current_mode : ChatMode
  pub active_channels : List Text
  pub active_dms : Dict Text
  pub last_private_sender : Option (Text × Text)

abbrev pub new_context : ChatContext
new_context = record {
  current_mode = public;
  active_channels = [];
  active_dms = [];
  last_private_sender = none;
}

unfoldable pub format_prompt : ChatMode → Text
format_prompt public = codes "[Public]"
format_prompt (channel name) = b'[' ∷ name ++ codes "]"
format_prompt (private_dm nickname peer_id) = codes "[DM: " ++ (nickname ++ codes "]")

-- `' '.join(parts)`
unfoldable pub join_spaces : List Text → Text
join_spaces [] = []
join_spaces (part ∷ []) = part
join_spaces (part ∷ next ∷ parts) = part ++ 32 ∷ join_spaces (next ∷ parts)

-- f"[{i + start}] {label}"
abbrev pub part : ℕ → Text → Text
part n label = b'[' ∷ decimal n ++ codes "] " ++ label

unfoldable pub channel_parts : ℕ → List Text → List Text
channel_parts i [] = []
channel_parts i (c ∷ cs) = part (i + 2) c ∷ channel_parts (suc i) cs

unfoldable pub dm_parts : ℕ → ℕ → Dict Text → List Text
dm_parts dm_start i [] = []
dm_parts dm_start i ((nick, peer_id) ∷ dms) =
    part (i + dm_start) (codes "DM:" ++ nick) ∷ dm_parts dm_start (suc i) dms

unfoldable pub status_parts : ChatContext → List Text
unfolding channel_parts dm_parts
status_parts ctx =
    codes "[1] Public"
    ∷ (channel_parts 0 ctx.active_channels
        ++ dm_parts (2 + length ctx.active_channels) 0 ctx.active_dms)

unfoldable pub get_status_line : ChatContext → Text
unfolding join_spaces status_parts
get_status_line ctx = codes "Active: " ++ join_spaces (status_parts ctx)

-- `dm_list[dm_idx]` where `dm_idx` is `num - dm_start`; a negative index counts from the end.
unfoldable pub dm_at : ℕ → ℕ → Dict Text → Result (Text × Text)
dm_at num dm_start dms =
    let at : ℕ = if leb dm_start num then num - dm_start else length dms - (dm_start - num) in
    let found : Result (Text × Text) = elim (get_elem? dms at) [
      | none ↦ err index_error
      | some dm ↦ ok dm
    ] in
    if leb dm_start num || leb (dm_start - num) (length dms) then found else err index_error

open_dm : ChatContext → Result (Text × Text) → Result (Bool × ChatContext)
open_dm ctx (err raised) = err raised
open_dm ctx (ok (nick, peer_id)) = ok (true, record ctx { current_mode = private_dm nick peer_id })

open_channel : ChatContext → Option Text → Option (Bool × ChatContext)
open_channel ctx none = none
open_channel ctx (some name) = some (true, record ctx { current_mode = channel name })

or_dm : ℕ → ChatContext → Option (Bool × ChatContext) → Result (Bool × ChatContext)
unfolding dm_at open_dm
or_dm num ctx (some switched) = ok switched
or_dm num ctx none =
    let dm_start : ℕ = 2 + length ctx.active_channels in
    let opened = open_dm ctx (dm_at num dm_start ctx.active_dms) in
    if ltb num (dm_start + length ctx.active_dms) then opened else ok (false, ctx)

-- `switch_to_number`, for the numbers that the client passes, which have no sign.
unfoldable pub switch_to_number : ℕ → ChatContext → Result (Bool × ChatContext)
unfolding or_dm open_channel
switch_to_number num ctx =
    let switched : Option (Bool × ChatContext) =
      if ltb 1 num && leb num (1 + length ctx.active_channels)
      then open_channel ctx (get_elem? ctx.active_channels (num - 2))
      else none in
    let other = or_dm num ctx switched in
    if num == 1 then ok (true, record ctx { current_mode = public }) else other

unfoldable pub add_channel : Text → ChatContext → ChatContext
unfolding add
add_channel name ctx = record ctx { active_channels = add name ctx.active_channels }

unfoldable pub add_dm : Text → Text → ChatContext → ChatContext
unfolding insert
add_dm nickname peer_id ctx = record ctx { active_dms = insert nickname peer_id ctx.active_dms }

unfoldable pub enter_dm_mode : Text → Text → ChatContext → ChatContext
unfolding add_dm
enter_dm_mode nickname peer_id ctx = record (add_dm nickname peer_id ctx) {
  current_mode = private_dm nickname peer_id;
}

-- `switch_to_channel` and `switch_to_channel_silent`, which differ in what they print.
unfoldable pub switch_to_channel : Text → ChatContext → ChatContext
unfolding add_channel
switch_to_channel name ctx = record (add_channel name ctx) { current_mode = channel name }

unfoldable pub switch_to_public : ChatContext → ChatContext
switch_to_public ctx = record ctx { current_mode = public }

-- `list.remove` takes the first; a channel stands once in the list.
unfoldable pub remove_first : Text → List Text → List Text
remove_first x [] = []
remove_first x (y ∷ ys) = if eq_text y x then ys else y ∷ remove_first x ys

unfoldable pub remove_channel : Text → ChatContext → ChatContext
unfolding remove_first
remove_channel name ctx = record ctx { active_channels = remove_first name ctx.active_channels }

-- `get_conversation_list_with_numbers`
list_row : ℕ → Text → Text
list_row num label =
    codes "│  "
    ++ (decimal num ++ (codes ". " ++ (label ++ (replicate (20 - length label) 32 ++ codes "│\n"))))

list_channels : ℕ → List Text → Text
list_channels num [] = []
list_channels num (c ∷ cs) = list_row num c ++ list_channels (num + 1) cs

list_dms : ℕ → Dict Text → Text
list_dms num [] = []
list_dms num ((nick, peer_id) ∷ dms) = list_row num (codes "DM: " ++ nick) ++ list_dms (num + 1) dms

unfoldable pub get_conversation_list_with_numbers : ChatContext → Text
unfolding list_row list_channels list_dms
get_conversation_list_with_numbers ctx =
    codes "╭─── Select Conversation ───╮\n"
    ++ (codes "│  1. Public                │\n"
        ++ (list_channels 2 ctx.active_channels
            ++ (list_dms (2 + length ctx.active_channels) ctx.active_dms
                ++ codes "╰───────────────────────────╯")))
