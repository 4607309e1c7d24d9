-- ===== src/Pipe/Ring/Contents.antt =====
-- The ring buffer of TP2-SO-2025/Kernel/pipe.c holds a sequence of bytes, oldest first.
use tp_so_grupo.Base.{
  ℕ, zero, suc, ◌+◌, ◌-◌, ◌%◌, ◌<◌, ◌≡◌, refl, sym, ap, ap₂, subst, ◌∙◌, true, false, List, [], ◌∷◌,
  ◌++◌, append-nil, append_assoc, arith, length, set, get_or, take, drop, length-set,
  get_or-set_self, get_or-set_ne, Bool-cases, inl, inr,
}
use Prim.Native.Nat.{min}
use tp_so_grupo.Kernel.{Pipe}
use tp_so_grupo.Pipe.Ring.{
  pipe_buffer_size, next_idx, is_full, is_empty, write_byte, fill, refill, drain,
}

-- `n` bytes from index `i` on, round the end of the buffer.
abbrev held : List ℕ → ℕ → ℕ → List ℕ
held buf i zero = []
held buf i (suc n) = get_or buf i 0 ∷ held buf (next_idx i) n

pub record IsRing (p : Pipe) : Type 0 where
  pub storage : length p.buffer ≡ pipe_buffer_size
  pub read_in : p.idx_to_read < pipe_buffer_size
  pub write_in : p.idx_to_write < pipe_buffer_size

abbrev pub used : Pipe → ℕ
used p = (p.idx_to_write + pipe_buffer_size - p.idx_to_read) % pipe_buffer_size

-- The bytes in the pipe, oldest first.
abbrev pub bytes_in : Pipe → List ℕ
bytes_in p = held p.buffer p.idx_to_read (used p)

length-held : (buf : List ℕ) (i n : ℕ) → length (held buf i n) ≡ n
length-held buf i zero = refl
length-held buf i (suc n) = ap suc (length-held buf (next_idx i) n)

held-set :
    (buf : List ℕ) (n i j b : ℕ)
    → length buf ≡ pipe_buffer_size
    → i < pipe_buffer_size
    → n < pipe_buffer_size
    → j ≡ (i + n) % pipe_buffer_size
    → held (set buf j b) i (suc n) ≡ held buf i n ++ b ∷ []
held-set buf zero i j b s h m e =
    ap (λ x. x ∷ [])
      (subst (λ k. get_or (set buf j b) k 0 ≡ b) (omega arith)
        (get_or-set_self buf j b 0 (omega arith)))
held-set buf (suc n) i j b s h m e =
    ap₂ ◌∷◌ (get_or-set_ne buf j i b 0 (omega arith))
      (held-set buf n (next_idx i) j b s (omega arith) (omega arith) (omega arith))

is_full_iff :
    (p : Pipe)
    → IsRing p
    → (is_full p ≡ true → used p ≡ pipe_buffer_size - 1)
      × (is_full p ≡ false → used p < pipe_buffer_size - 1)
is_full_iff p v = (λ e. ground arith, λ e. ground arith)

is_empty_iff :
    (p : Pipe) → IsRing p → (is_empty p ≡ true → used p ≡ 0) × (is_empty p ≡ false → 0 < used p)
is_empty_iff p v = (λ e. ground arith, λ e. ground arith)

pub write_byte-IsRing : (b : ℕ) (p : Pipe) → IsRing p → IsRing (write_byte b p)
unfolding write_byte
write_byte-IsRing b p v = omega (arith, length-set p.buffer p.idx_to_write b)

used-write_byte :
    (b : ℕ) (p : Pipe) → IsRing p → is_full p ≡ false → used (write_byte b p) ≡ suc (used p)
unfolding write_byte
used-write_byte b p v free = let room = (is_full_iff p v).1 free in omega arith

pub bytes_in-write_byte :
    (b : ℕ) (p : Pipe)
    → IsRing p
    → is_full p ≡ false
    → bytes_in (write_byte b p) ≡ bytes_in p ++ b ∷ []
unfolding write_byte
bytes_in-write_byte b p v free =
    let room = (is_full_iff p v).1 free in
    ap (held (set p.buffer p.idx_to_write b) p.idx_to_read) (used-write_byte b p v free)
    ∙ held-set p.buffer (used p) p.idx_to_read p.idx_to_write b v.storage v.read_in (omega arith)
        (omega arith)

-- A byte that is written into a full well-formed ring buffer leaves no byte in it.
pub bytes_in-write_byte_full :
    (b : ℕ) (p : Pipe) → IsRing p → is_full p ≡ true → bytes_in (write_byte b p) ≡ []
unfolding write_byte
bytes_in-write_byte_full b p v full =
    let all = (is_full_iff p v).0 full in
    let none_left : used (write_byte b p) ≡ 0 = omega arith in
    ap (held (set p.buffer p.idx_to_write b) p.idx_to_read) none_left

take-append_cons :
    (xs : List ℕ) (b : ℕ) (ys : List ℕ) (n : ℕ)
    → (xs ++ b ∷ []) ++ take n ys ≡ xs ++ take (suc n) (b ∷ ys)
take-append_cons xs b ys n = append_assoc xs (b ∷ []) (take n ys)

-- What the loop of `writePipe` has done when it stops, started at `p` with the bytes `bs`.
pub record Filled (p : Pipe) (bs : List ℕ) (out : List ℕ × ℕ × Pipe) : Type 0 where
  pub ring : IsRing out.2
  pub count : out.1 ≡ min (length bs) (pipe_buffer_size - 1 - used p)
  pub rest : out.0 ≡ drop out.1 bs
  pub bytes : bytes_in out.2 ≡ bytes_in p ++ take out.1 bs

-- The loop of `writePipe` from a well-formed ring buffer stops with a well-formed one, after as
-- many bytes as there were or as there was room for; these are appended to the bytes in the pipe,
-- and the others are left.
pub fill_lem : (bs : List ℕ) (p : Pipe) → IsRing p → Filled p bs (fill bs p)
unfolding fill
fill_lem [] p v = record {
  ring = v;
  count = omega arith;
  rest = refl;
  bytes = sym (append-nil (bytes_in p));
}
fill_lem (b ∷ bs) p v = elim (Bool-cases (is_full p)) [
  | inl full ↦ rw full (record {
    ring = v;
    count = omega (arith, (is_full_iff p v).0 full);
    rest = refl;
    bytes = sym (append-nil (bytes_in p));
  })
  | inr free ↦
      let step = fill_lem bs (write_byte b p) (write_byte-IsRing b p v) in
      let one = bytes_in-write_byte b p v free in
      rw free (record {
        ring = step.ring;
        count = omega (arith, step.count, used-write_byte b p v free, (is_full_iff p v).1 free);
        rest = step.rest;
        bytes =
            step.bytes
            ∙ ap (λ l. l ++ take (fill bs (write_byte b p)).1 bs) one
            ∙ take-append_cons (bytes_in p) b bs (fill bs (write_byte b p)).1;
      })
]

-- The same for a writer that was woken and finds room.
pub refill_lem :
    (bs : List ℕ) (p : Pipe)
    → IsRing p
    → is_full p ≡ false
    → IsRing (refill bs p).2 × (bytes_in (refill bs p).2 ≡ bytes_in p ++ take (refill bs p).1 bs)
unfolding refill
refill_lem [] p v free = (v, sym (append-nil (bytes_in p)))
refill_lem (b ∷ bs) p v free =
    let step = fill_lem bs (write_byte b p) (write_byte-IsRing b p v) in
    (
      step.ring,
      step.bytes
          ∙ ap (λ l. l ++ take (fill bs (write_byte b p)).1 bs) (bytes_in-write_byte b p v free)
          ∙ take-append_cons (bytes_in p) b bs (fill bs (write_byte b p)).1,
    )

-- The pipe after its oldest byte was taken.
abbrev taken : Pipe → Pipe
taken p = record p { idx_to_read = next_idx p.idx_to_read }

taken-IsRing : (p : Pipe) → IsRing p → IsRing (taken p)
taken-IsRing p v = omega arith

bytes_in-taken :
    (p : Pipe)
    → IsRing p
    → is_empty p ≡ false
    → bytes_in p ≡ get_or p.buffer p.idx_to_read 0 ∷ bytes_in (taken p)
bytes_in-taken p v e =
    let some_in = (is_empty_iff p v).1 e in
    let less : used p ≡ suc (used (taken p)) = omega arith in ap (held p.buffer p.idx_to_read) less

bytes_in-none : (p : Pipe) → IsRing p → is_empty p ≡ true → bytes_in p ≡ []
bytes_in-none p v e = ap (held p.buffer p.idx_to_read) ((is_empty_iff p v).0 e)

-- The loop of `readPipe` for `n` bytes from a well-formed ring buffer stops with a well-formed one,
-- has read the oldest `n` bytes, or all if there were fewer, and leaves the others.
pub drain_lem :
    (n : ℕ) (p : Pipe)
    → IsRing p
    → IsRing (drain n p).1
      × ((drain n p).0 ≡ take n (bytes_in p))
      × (bytes_in (drain n p).1 ≡ drop n (bytes_in p))
unfolding drain
drain_lem zero p v = (v, refl, refl)
drain_lem (suc n) p v = elim (Bool-cases (is_empty p)) [
  | inl none_in ↦
      let gone = bytes_in-none p v none_in in
      rw none_in (v, sym (ap (take (suc n)) gone), gone ∙ sym (ap (drop (suc n)) gone))
  | inr some_in ↦
      let step = drain_lem n (taken p) (taken-IsRing p v) in
      let split = bytes_in-taken p v some_in in
      rw some_in (
        step.0,
        ap (λ l. get_or p.buffer p.idx_to_read 0 ∷ l) step.1 ∙ sym (ap (take (suc n)) split),
        step.2 ∙ sym (ap (drop (suc n)) split),
      )
]
