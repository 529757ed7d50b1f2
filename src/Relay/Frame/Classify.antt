-- ===== src/Relay/Frame/Classify.antt =====
-- `classify` and `MergeInfo::scoped` of apps/relay/src/realtime/buffer.rs.
use Prim.Native.String.{◌++◌ as str_append}
use agent_console.Base.{decimal, Option, String, length, nat_eq, none, some, string_eq}
use agent_console.Relay.Frame.Messages.{
  ItemId, OutputAppend, Content, question, approval, token_usage, Item, Event, turn_lifecycle,
  item_upsert, output_append, output_replace, output_final, session_summary_changed,
  pending_attention_added, pending_attention_removed, queue_state_changed,
  background_command_changed, device_presence_changed, capability_changed, FrameKind, critical,
  recoverable, mergeable, MergeInfo, append_info, replace_latest,
}

-- `format!("{prefix}/{key}")`
abbrev pub scoped_key : String → String → String
scoped_key prefix key = str_append prefix (str_append "/" key)

unfoldable pub scoped : String → MergeInfo → MergeInfo
scoped prefix (append_info a) = append_info (record a { key = scoped_key prefix a.key })
scoped prefix (replace_latest key) = replace_latest (scoped_key prefix key)

-- `as_ref().map(..).unwrap_or("")`
abbrev pub or_empty : Option String → String
or_empty none = ""
or_empty (some s) = s

abbrev pub id_of : Option ItemId → String
id_of none = ""
id_of (some i) = i.id

-- `up.item.as_ref().and_then(|i| i.content.as_ref())`
abbrev content_of : {M : Type 0} → Option (Item M) → Option (Content M)
content_of none = none
content_of (some i) = i.content

abbrev item_key : {M : Type 0} → Option (Item M) → String
item_key none = ""
item_key (some i) = id_of i.item_id

abbrev pub classify_item : {M : Type 0} → String → Option (Content M) → FrameKind × Option MergeInfo
classify_item key (some (token_usage m)) =
    (mergeable, some (replace_latest (str_append "token:" key)))
classify_item key (some (question m)) = (critical, none)
classify_item key (some (approval m)) = (critical, none)
classify_item key _ = (recoverable, none)

abbrev pub output_key : OutputAppend → String
output_key a = str_append "out:" (str_append (id_of a.item_id) (str_append ":" (decimal a.channel)))

unfoldable pub classify : {M : Type 0} → Event M → FrameKind × Option MergeInfo
classify (turn_lifecycle m) = (critical, none)
classify (session_summary_changed m) = (critical, none)
classify (pending_attention_added m) = (critical, none)
classify (pending_attention_removed m) = (critical, none)
classify (queue_state_changed m) = (critical, none)
classify (device_presence_changed device m) =
    (mergeable, some (replace_latest (str_append "presence:" (or_empty device))))
classify (capability_changed m) = (recoverable, some (replace_latest "capability"))
classify (background_command_changed command m) =
    (recoverable, some (replace_latest (str_append "bg:" (or_empty command))))
classify (item_upsert item) = classify_item (item_key item) (content_of item)
classify (output_append a) = (
  mergeable,
  some (
      append_info
        (record { key = output_key a; offset = a.expected_offset; len = length a.bytes })),
)
classify (output_replace m) = (recoverable, none)
classify (output_final m) = (recoverable, none)
