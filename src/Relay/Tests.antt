-- ===== src/Relay/Tests.antt =====
-- The theorems on apps/relay/src/realtime/buffer.rs at concrete frames, buffers and outboxes. An
-- encoded envelope is taken to have sixteen bytes and the output it carries.
use agent_console.Base.{
  List, Option, [], false, inl, length, nat_eq, none, refl, some, string_eq, ℕ, ◌++◌, ◌+◌, ◌∷◌, ◌≡◌,
  ◌≤◌,
}
use agent_console.Relay.Frame.Messages.{
  turn_lifecycle, output_append, DomainEvent, event_batch, Envelope, critical, mergeable,
  append_info, Frame,
}
use agent_console.Relay.StreamBuffer.{
  StreamBuffer, place, evict_expired, insert_frame, placed, live_queue,
}
use agent_console.Relay.Coalesce.Contents.{size}
use agent_console.Relay.Frame.Merge.{extended, LastAppend, last_append, merge_pair}
use agent_console.Relay.Frame.Lossless.{outputs_of, output_of}
use agent_console.Relay.StreamBuffer.Bounds.{IsExact, insert_frame-IsExact, insert_frame_bounds}
use agent_console.Relay.StreamBuffer.Critical.{Owes, wanted, insert_frame-Owes}
use agent_console.Relay.StreamBuffer.Output.{insert_frame-outputs}
use agent_console.Relay.Outbox.{
  new, push_frame, push_direct, recv, Call, pushes_frame, pushes_direct, closes, receives,
}
use agent_console.Relay.Outbox.Limits.{IsSound, step, run, run-new-IsSound}
use agent_console.Relay.Outbox.Delivery.{accepted, received, directs, directs_delivered}
use agent_console.Relay.Outbox.Fifo.{run_fifo}

abbrev output_size : Option (LastAppend ℕ) → ℕ
output_size none = 0
output_size (some l) = length l.append.bytes

encoded_size : Envelope ℕ → ℕ
unfolding last_append
encoded_size env = 16 + output_size (last_append env)

abbrev envelope : ℕ → List (DomainEvent ℕ) → Envelope ℕ
envelope seq events = record {
  protocol_version = 1;
  message_id = "m";
  correlation_id = "";
  sent_at = none;
  device_id = "dev";
  agent_kind = 1;
  stream_id = "dev:s";
  stream_epoch = 1;
  sequence = seq;
  payload = some (event_batch (record { stream_id = "dev:s"; events = events }));
  provider_extension = none;
}

abbrev output : ℕ → List ℕ → Frame ℕ
output offset bytes = record {
  env = envelope offset (
      record {
        emitted_at = none;
        event = some (
            output_append (record {
              item_id = some (record { id = "item"; synthetic = false });
              expected_offset = offset;
              bytes = bytes;
              channel = 1;
            }));
      }
      ∷ []);
  kind = mergeable;
  merge = some (append_info (record { key = "dev:s"; offset = offset; len = length bytes }));
  upstream_seq = some offset;
  ts = 5;
  bytes_len = 16 + length bytes;
}

abbrev lifecycle : Frame ℕ
lifecycle = record {
  env = envelope 9 (record { emitted_at = none; event = some (turn_lifecycle 7) } ∷ []);
  kind = critical;
  merge = none;
  upstream_seq = some 9;
  ts = 6;
  bytes_len = 16;
}

abbrev first : Frame ℕ
first = output 0 (1 ∷ 2 ∷ [])

abbrev second : Frame ℕ
second = output 2 (3 ∷ [])

abbrev buffer : ℕ → StreamBuffer ℕ
buffer max_events = record {
  items = lifecycle ∷ first ∷ [];
  bytes = 34;
  max_events = max_events;
  max_bytes = 60;
  retention = 100;
}

abbrev sent : List (Call ℕ)
sent = pushes_frame first ∷ pushes_direct (4 ∷ []) ∷ receives ∷ pushes_frame second ∷ []

abbrev sent_and_closed : List (Call ℕ)
sent_and_closed = pushes_frame first ∷ pushes_direct (4 ∷ []) ∷ closes "slow" ∷ receives ∷ []

abbrev both : Frame ℕ
both = record (output 0 (1 ∷ 2 ∷ 3 ∷ [])) { ts = 8 }

first-second : merge_pair encoded_size 8 first second ≡ some both
unfolding merge_pair last_append encoded_size extended
first-second = refl

insert_frame-IsExact_example : IsExact (insert_frame encoded_size 8 second (buffer 2)).0
insert_frame-IsExact_example = insert_frame-IsExact encoded_size 8 second (buffer 2) refl

insert_frame_bounds_example :
    (length (insert_frame encoded_size 8 second (buffer 2)).0.items ≤ 2)
    × (size (insert_frame encoded_size 8 second (buffer 2)).0.items ≤ 60)
insert_frame_bounds_example = insert_frame_bounds encoded_size 8 second (buffer 2) refl

-- A buffer with room for one frame gives up the output and keeps the critical frame.
insert_frame-Owes_example :
    Owes
      (wanted encoded_size 8 second (buffer 1))
      1
      60
      (insert_frame encoded_size 8 second (buffer 1))
insert_frame-Owes_example =
    insert_frame-Owes encoded_size 8 second (buffer 1) refl (refl, (refl, tt))

insert_frame-outputs_example :
    outputs_of "dev:s" (insert_frame encoded_size 8 second (buffer 3)).0.items
    ≡ outputs_of "dev:s" (live_queue encoded_size 8 (buffer 3)).0 ++ output_of "dev:s" second
insert_frame-outputs_example =
    insert_frame-outputs encoded_size 8 "dev:s" second (buffer 3)
      (inl (unfold placed place evict_expired merge_pair last_append extended encoded_size in refl))

run-new-IsSound_example : IsSound (run (new 2 100) sent)
run-new-IsSound_example = run-new-IsSound 2 100 sent

directs_delivered_example :
    directs (received (new 2 100) sent_and_closed)
      ++ directs (run (new 2 100) sent_and_closed).items
    ≡ directs (accepted (new 2 100) sent_and_closed)
directs_delivered_example = directs_delivered 2 100 sent_and_closed

run_fifo_example :
    received (new 2 100) sent ++ (run (new 2 100) sent).items ≡ accepted (new 2 100) sent
run_fifo_example = run_fifo 2 100 sent (unfold run step new push_frame push_direct recv in refl)
