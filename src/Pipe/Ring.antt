-- ===== src/Pipe/Ring.antt =====
-- The ring buffer of TP2-SO-2025/Kernel/pipe.c: the byte moves of `readPipe` and `writePipe`.
pub mod Contents
pub mod Stream
use tp_so_grupo.Base.{
  ℕ, zero, suc, ◌+◌, ◌-◌, ◌*◌, ◌%◌, List, [], ◌∷◌, ◌==◌, Bool, if◌then◌else◌, get_or, set,
}
use tp_so_grupo.Kernel.{Pipe}

abbrev pub pipe_buffer_size : ℕ
pipe_buffer_size = 16384

abbrev pub next_idx : ℕ → ℕ
next_idx i = (i + 1) % pipe_buffer_size

abbrev pub previous_idx : ℕ → ℕ
previous_idx i = if i == 0 then pipe_buffer_size - 1 else i - 1

abbrev pub is_full : Pipe → Bool
is_full p = p.idx_to_write == previous_idx p.idx_to_read

abbrev pub is_empty : Pipe → Bool
is_empty p = p.idx_to_read == p.idx_to_write

unfoldable pub write_byte : ℕ → Pipe → Pipe
write_byte b p = record p {
  buffer = set p.buffer p.idx_to_write b;
  idx_to_write = next_idx p.idx_to_write;
}

-- The rounds of `writePipe` up to its end or to a full buffer: the bytes that are left, and how
-- many were written.
unfoldable pub fill : List ℕ → Pipe → List ℕ × ℕ × Pipe
fill [] p = ([], 0, p)
fill (b ∷ bs) p =
    let (rest, n, q) = fill bs (write_byte b p) in
    if is_full p then (b ∷ bs, 0, p) else (rest, suc n, q)

-- A writer that was woken writes its next byte without another test, and goes on with the loop.
unfoldable pub refill : List ℕ → Pipe → List ℕ × ℕ × Pipe
unfolding fill write_byte
refill [] p = ([], 0, p)
refill (b ∷ bs) p = let (rest, n, q) = fill bs (write_byte b p) in (rest, suc n, q)

-- The loop of `readPipe` for at most `n` bytes.
unfoldable pub drain : ℕ → Pipe → List ℕ × Pipe
drain zero p = ([], p)
drain (suc n) p =
    let (bytes, q) = drain n (record p { idx_to_read = next_idx p.idx_to_read }) in
    if is_empty p then ([], p) else (get_or p.buffer p.idx_to_read 0 ∷ bytes, q)
