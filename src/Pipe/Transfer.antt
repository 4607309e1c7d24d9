-- ===== src/Pipe/Transfer.antt =====
-- `readPipe`, `writePipe`, `closePipe` and `unblockPipeReader` of TP2-SO-2025/Kernel/pipe.c. The
-- caller's buffer is there or not; what is read is the list of the bytes that go into it.
pub mod Overrun
use tp_so_grupo.Base.{
  ℕ, ◌+◌, Bool, true, false, not, ◌&&◌, ◌||◌, Option, none, some, List, [], ◌∷◌, ◌==◌, leb,
  if◌then◌else◌, fault, pure, ◌>>=◌, ◌>>◌, length,
}
use tp_so_grupo.Kernel.{Ptr, null, Cmd}
use tp_so_grupo.Semaphore.{sem_post, sem_wait}
use tp_so_grupo.Pipe.{deref_pipe, store_pipe, get_valid_pipe, wake_all, delete_pipe}
use tp_so_grupo.Pipe.Ring.{is_empty, write_byte, fill, drain}

-- What a call has come to: it returned, or the process waits in the middle of it.
pub data Progress (A W : Type 0) : Type 0 where
  returned : A → Progress A W
  waits : W → Progress A W

-- `panic` where a semaphore fails.
must : Option (Unit {0}) → Cmd (Unit {0})
must none = λ _. fault
must (some u) = pure tt

pub read_resume : Ptr → ℕ → Cmd (List ℕ)
unfolding must
read_resume p bytes = do
  x ← deref_pipe p
  let got = drain bytes x
  store_pipe p got.1
  if not (length got.0 == 0) && got.1.waiting_to_write
      then store_pipe p (record got.1 { waiting_to_write = false })
        >> (sem_post x.can_write >>= must)
      else pure tt
  pure got.0

-- The wait of a reader is left with the pipe and the count. `granted` is for the semaphore's node.
pub read_pipe :
    (granted : Bool) → ℕ → (buffer : Bool) → ℕ → Cmd (Progress (Option (List ℕ)) (Ptr × ℕ))
unfolding read_resume must
read_pipe granted id buffer bytes = do
  p ← get_valid_pipe id
  if p == null || not buffer then pure (returned none) else do
    x ← deref_pipe p
    if not (is_empty x)
        then (do got ← read_resume p bytes; pure (returned (some got)))
        else if x.writers == 0 && x.exp_writers == 0
        then pure (returned (some []))
        else do
          store_pipe p (record x { waiting_to_read = true })
          sem_wait granted x.can_read >>= must
          pure (waits (p, bytes))

write_end : Ptr → ℕ → Cmd (Progress (Option ℕ) (Ptr × ℕ × List ℕ))
unfolding must
write_end p written = do
  x ← deref_pipe p
  if not (written == 0) && x.waiting_to_read
      then store_pipe p (record x { waiting_to_read = false }) >> (sem_post x.can_read >>= must)
      else pure tt
  pure (returned (some written))

write_on : (granted : Bool) → Ptr → ℕ → List ℕ → Cmd (Progress (Option ℕ) (Ptr × ℕ × List ℕ))
unfolding write_end must
write_on granted p written [] = write_end p written
write_on granted p written (b ∷ bs) = do
  x ← deref_pipe p
  store_pipe p (record x { waiting_to_write = true })
  sem_wait granted x.can_write >>= must
  pure (waits (p, written, b ∷ bs))

-- The loop of `writePipe` from a test of the buffer on.
write_loop : (granted : Bool) → Ptr → ℕ → List ℕ → Cmd (Progress (Option ℕ) (Ptr × ℕ × List ℕ))
unfolding write_on
write_loop granted p written bytes = do
  x ← deref_pipe p
  let got = fill bytes x
  store_pipe p got.2
  write_on granted p (written + got.1) got.0

-- A writer that was woken writes its next byte without another test.
pub write_resume :
    (granted : Bool) → Ptr → ℕ → List ℕ → Cmd (Progress (Option ℕ) (Ptr × ℕ × List ℕ))
unfolding write_loop write_end
write_resume granted p written [] = write_end p written
write_resume granted p written (b ∷ bs) = do
  x ← deref_pipe p
  store_pipe p (write_byte b x)
  write_loop granted p (written + 1) bs

pub write_pipe :
    (granted : Bool) → ℕ → (buffer : Bool) → List ℕ → Cmd (Progress (Option ℕ) (Ptr × ℕ × List ℕ))
unfolding write_loop
write_pipe granted id buffer bytes = do
  p ← get_valid_pipe id
  if p == null || not buffer then pure (returned none) else write_loop granted p 0 bytes

pub unblock_pipe_reader : ℕ → Cmd (Unit {0})
unfolding must
unblock_pipe_reader id = do
  p ← get_valid_pipe id
  if p == null then pure tt else do
    x ← deref_pipe p
    if x.waiting_to_read
        then store_pipe p (record x { waiting_to_read = false }) >> (sem_post x.can_read >>= must)
        else pure tt

abbrev is_std : ℕ → Bool
is_std id = id == 0 || id == 1

-- `while (users--)` runs for ever at a count of -1; the semaphores of a stored pipe are registered.
pub close_pipe : ℕ → Cmd Bool
close_pipe id = do
  p ← get_valid_pipe id
  if p == null then pure false else do
    x ← deref_pipe p
    if not (is_std id) && leb x.attached 1
        then wake_all x.can_read >> wake_all x.can_write
        else pure tt
    if x.attached == 0 || (is_std id && x.attached == 1)
        then (delete_pipe p >>= λ done. if done then pure true else λ _. fault)
        else pure true
