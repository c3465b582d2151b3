-- ===== src/Session/Tests.antt =====
-- session.go: the theorems at a concrete session.
use muduo_go.Prelude.{
  ◌+◌, ◌≤◌, length, ℕ, ◌≡◌, ◌++◌, refl, List, [], ◌∷◌, none, some, Run, Post, ok, panic, arith,
  take, replicate, pos, ℤ, true, false, ltb_ℤ, ◌+ℤ◌, ◌-ℤ◌, leb_ℤ,
}
use muduo_go.Buffer.{
  Buffer, new_buffer, readable_bytes, peek, advance, reset, search_bytes, index, is_prefix,
}
use muduo_go.Buffer.Layout.{layout}
use muduo_go.Text.{
  itoa, to_int64, decimal_loop, eq_bytes, bytes, fields, parse_digits, parse_uint, parse_int,
}
use muduo_go.Memcached.{
  set, invalid, Item, new_memcached, new_item, append_bytes, key_of, need_bytes,
}
use muduo_go.Memcached.Cache.{Represents, spec_store, crlf, stored_line}
use muduo_go.Memcached.Tests.{
  one_slot, one_entry, one_slot-Represents, byte_count, key, entry, empty_cache, empty-Represents,
}
use muduo_go.Session.{
  Session, Call, async_write, write_now, new_command, recv_value, ascii, longest_key, Header,
  do_update, begin_update, replay, reset_request,
}
use muduo_go.Session.Requests.{do_get, process_request, run_command}
use muduo_go.Session.Messages.{recv_bytes, one_round, on_msg_loop, on_msg}
use muduo_go.Session.Values.{filled_with, append_all, append_all-key, concat, new_item-ok}
use muduo_go.Session.Gets.{replies, do_get-replies}
use muduo_go.Session.Updates.{recv_bytes-stores}
use muduo_go.Session.Invariant.{IsSound}
use muduo_go.Session.Soundness.{IsReady}
use muduo_go.Session.Progress.{on_msg-ends}
use muduo_go.Session.Faults.{TooFew, short_update, delete_one, process_request-panics}

abbrev some_room : List Call → ℤ
some_room cs = pos 1024

abbrev idle : Session
idle = record {
  m = new_memcached 0;
  calls = [];
  state = new_command;
  protocol = ascii;
  command = [];
  noreply = false;
  policy = invalid;
  curr_item = none;
  bytes_to_discard = 0;
  needle = filled_with byte_count longest_key 0 (pos 0) 2 0 [] (replicate 252 0);
  output_buffer = new_buffer;
  bytes_read = 0;
  req_processed = 0;
}

-- The item of the key and the value, before a byte has come.
abbrev promised : Item
promised = filled_with byte_count key 5 (pos 0) 3 1 [] (replicate 4 0)

abbrev receiving : Session
receiving = record idle { state = recv_value; policy = set; curr_item = some promised }

idle-IsSound : IsSound idle
unfolding eq_bytes
idle-IsSound = refl

-- A command, the header of an update, and the first two bytes of its value.
abbrev request : List ℕ
request = bytes "version\r\nset a 5 0 1\r\nax"

abbrev answered : Session
answered = record idle {
  calls = async_write (bytes "VERSION 0.0.1 muduo\r\n") ∷ [];
  state = recv_value;
  command = bytes "set";
  policy = set;
  curr_item = some (filled_with byte_count key 5 (pos 0) 3 0 (97 ∷ 120 ∷ []) (0 ∷ 0 ∷ []));
  bytes_read = 24;
  req_processed = 2;
}

on_msg_run :
    on_msg byte_count some_room idle (layout [] request [])
    ≡ some (ok (answered, layout request [] []))
unfolding on_msg on_msg_loop one_round recv_bytes process_request run_command do_update begin_update
    replay reset_request new_item need_bytes append_bytes eq_bytes fields parse_uint parse_int
    parse_digits readable_bytes peek advance reset search_bytes index is_prefix ◌+ℤ◌ ◌-ℤ◌ leb_ℤ
    ltb_ℤ
on_msg_run = refl

on_msg-ends_example :
    (r : Run (Session × Buffer)) × (on_msg byte_count some_room idle (layout [] request [])
      ≡ some r)
    × Post r (λ x. IsReady x.0)
on_msg-ends_example = on_msg-ends byte_count some_room idle [] request [] idle-IsSound refl

-- The key and the value in three pieces.
abbrev pieces : List (List ℕ)
pieces = (97 ∷ []) ∷ (120 ∷ 13 ∷ []) ∷ (10 ∷ []) ∷ []

append_all-key_example :
    (g : Item) × (append_all pieces promised ≡ ok g)
    × (need_bytes g ≡ pos 0)
    × (key_of g ≡ ok (take 1 (concat pieces)))
    × (g.hash ≡ byte_count key)
append_all-key_example =
    append_all-key byte_count key 5 (pos 0) 3 1 pieces promised
      (new_item-ok byte_count key 5 (pos 0) 3 1) refl

recv_bytes-stores_example :
    (t : Session) × (recv_bytes byte_count receiving
        (layout [] ((key ++ (entry.value ++ crlf)) ++ (33 ∷ [])) [])
      ≡ ok (t, layout ([] ++ (key ++ (entry.value ++ crlf))) (33 ∷ []) []))
    × (t.state ≡ new_command)
    × Represents byte_count t.m (spec_store set key entry empty_cache).1
    × (t.calls ≡ async_write stored_line ∷ [])
recv_bytes-stores_example =
    recv_bytes-stores byte_count key entry receiving promised empty_cache [] (33 ∷ []) [] refl refl
      (new_item-ok byte_count key 5 (pos 0) 3 1) empty-Represents tt

process_request-panics_example :
    process_request byte_count some_room (bytes "delete a noreply") idle ≡ panic
unfolding fields eq_bytes
process_request-panics_example =
    process_request-panics byte_count some_room (bytes "delete a noreply") (bytes "delete")
      ((97 ∷ []) ∷ []) idle refl refl (delete_one (omega arith))

short_line : TooFew (bytes "set") ((97 ∷ []) ∷ (53 ∷ []) ∷ [])
unfolding eq_bytes
short_line = short_update refl (omega arith)

-- A value of two megabytes.
abbrev large : Header
large = record { flags = 0; exptime = pos 0; count = pos 2_097_152; unique = 0 }

-- The fresh output buffer.
new_buffer-layout : new_buffer ≡ layout [] [] (replicate 1024 0)
unfolding new_buffer
new_buffer-layout = refl

-- The cache holds the key.
abbrev filled : Session
filled = record idle { m = one_slot }

fits :
    length (replies true one_entry (key ∷ (98 ∷ []) ∷ [])) + 5 ≤ length {A = ℕ} (replicate 1024 0)
unfolding eq_bytes itoa decimal_loop to_int64
fits = omega arith

do_get-replies_example :
    (t : Session) × (do_get byte_count some_room true (key ∷ (98 ∷ []) ∷ []) filled ≡ ok t)
    × (t.calls
        ≡ []
          ++ write_now (([] ++ replies true one_entry (key ∷ (98 ∷ []) ∷ [])) ++ bytes "END\r\n")
            ∷ [])
    × (t.m ≡ one_slot)
do_get-replies_example =
    do_get-replies byte_count some_room true (key ∷ (98 ∷ []) ∷ []) filled one_entry [] []
      (replicate 1024 0) new_buffer-layout one_slot-Represents (omega arith, (omega arith, tt)) fits

said_of_key : replies true one_entry (key ∷ (98 ∷ []) ∷ []) ≡ bytes "VALUE a 5 1 1\r\nx\r\n"
unfolding eq_bytes itoa decimal_loop to_int64
said_of_key = refl
