-- ===== src/Buffer/Tests.antt =====
-- buffer.go: runs of the operations at concrete buffers, and the theorems there.
use muduo_go.Prelude.{
  ℕ, ◌≡◌, refl, inl, pos, List, [], ◌∷◌, none, ok, arith, replicate, ◌+ℤ◌, ◌-ℤ◌, ltb_ℤ,
}
use muduo_go.Buffer.{
  received, new_buffer, make_space, ensure_writable_bytes, write, next, read_fd, search_bytes,
  index, is_prefix, readable_bytes, writable_bytes,
}
use muduo_go.Buffer.Layout.{layout}
use muduo_go.Buffer.Writing.{write_stores_all, write_drops_bytes}
use muduo_go.Buffer.Receiving.{read_fd_stores_all}
use muduo_go.Buffer.Reading.{next_fifo}

-- One byte consumed, two unread and one free.
abbrev consumed : List ℕ
consumed = 7 ∷ []

abbrev unread : List ℕ
unread = 13 ∷ 10 ∷ []

abbrev free : List ℕ
free = 0 ∷ []

-- Three bytes fit neither in the consumed and free room, nor do they make the buffer grow.
three_bytes :
    write (1 ∷ 2 ∷ 3 ∷ []) (layout consumed unread free)
    ≡ ok (2, layout [] (13 ∷ 10 ∷ 1 ∷ 2 ∷ []) [])
unfolding write ensure_writable_bytes make_space readable_bytes writable_bytes ◌+ℤ◌ ◌-ℤ◌ ltb_ℤ
three_bytes = refl

fresh_takes_all : write (1 ∷ 2 ∷ []) new_buffer ≡ ok (2, layout [] (1 ∷ 2 ∷ []) (replicate 1022 0))
unfolding write ensure_writable_bytes writable_bytes new_buffer ◌-ℤ◌ ltb_ℤ
fresh_takes_all = refl

finds_crlf : search_bytes (13 ∷ 10 ∷ []) (layout consumed unread free) ≡ ok (pos 0)
unfolding search_bytes index is_prefix readable_bytes ◌-ℤ◌ ltb_ℤ
finds_crlf = refl

write_stores_all_example :
    (p' : List ℕ) × (f' : List ℕ) × (write (1 ∷ 2 ∷ []) (layout consumed unread free)
      ≡ ok (2, layout p' (13 ∷ 10 ∷ 1 ∷ 2 ∷ []) f'))
write_stores_all_example = write_stores_all consumed unread free (1 ∷ 2 ∷ []) (inl (omega arith))

write_drops_bytes_example :
    write (1 ∷ 2 ∷ 3 ∷ []) (layout consumed unread free)
    ≡ ok (2, layout [] (13 ∷ 10 ∷ 1 ∷ 2 ∷ []) [])
write_drops_bytes_example =
    write_drops_bytes consumed unread free (1 ∷ 2 ∷ 3 ∷ []) (omega arith) (omega arith)

read_fd_stores_all_example :
    (p' : List ℕ) × (f' : List ℕ) × (read_fd (received (1 ∷ 2 ∷ [])) (layout consumed unread free)
      ≡ ok ((pos 2, none), layout p' (13 ∷ 10 ∷ 1 ∷ 2 ∷ []) f'))
read_fd_stores_all_example =
    read_fd_stores_all consumed unread free (1 ∷ 2 ∷ []) (omega arith) (inl (omega arith))

next_fifo_example :
    (p' : List ℕ) × (f' : List ℕ) × (next (pos 1) (layout consumed unread free)
      ≡ ok (13 ∷ [], layout p' (10 ∷ []) f'))
next_fifo_example = next_fifo (pos 1) consumed unread free
