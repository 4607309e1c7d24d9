-- ===== src/Pipe/Ring/Stream.antt =====
-- A pipe as a stream: writers and readers take turns in any order.
use tp_so_grupo.Base.{
  ℕ, ◌≡◌, sym, ap, ◌∙◌, List, [], ◌∷◌, ◌++◌, append_assoc, append-nil, take, drop, take-append-drop,
  false,
}
use tp_so_grupo.Kernel.{Pipe}
use tp_so_grupo.Pipe.Ring.{is_full, fill, refill, drain}
use tp_so_grupo.Pipe.Ring.Contents.{IsRing, bytes_in, fill_lem, refill_lem, drain_lem}

-- A turn of a writer with bytes to write, which stops where the pipe is full; of a writer with bytes
-- to write that was woken from its wait, and so writes the first of them without a test; or of a
-- reader that wants so many bytes.
pub data Turn : Type 0 where
  put resume : List ℕ → Turn
  get : ℕ → Turn

-- The bytes that the writers got rid of, those that the readers got, and the pipe in the end.
pub transfer : List Turn → Pipe → List ℕ × List ℕ × Pipe
transfer [] p = ([], [], p)
transfer (put bs ∷ ts) p =
    let (rest, n, q) = fill bs p in
    let (sent, received, end) = transfer ts q in (take n bs ++ sent, received, end)
transfer (resume bs ∷ ts) p =
    let (rest, n, q) = refill bs p in
    let (sent, received, end) = transfer ts q in (take n bs ++ sent, received, end)
transfer (get n ∷ ts) p =
    let (bytes, q) = drain n p in
    let (sent, received, end) = transfer ts q in (sent, bytes ++ received, end)

-- Every writer that was woken finds room when its turn comes.
abbrev pub FindsRoom : List Turn → Pipe → Type 0
FindsRoom [] p = Unit {0}
FindsRoom (put bs ∷ ts) p = FindsRoom ts (fill bs p).2
FindsRoom (resume bs ∷ ts) p = (is_full p ≡ false) × FindsRoom ts (refill bs p).2
FindsRoom (get n ∷ ts) p = FindsRoom ts (drain n p).1

-- For any sequence of turns of writers, woken writers and readers on a well-formed ring buffer in
-- which every woken writer finds room, the bytes in it at first followed by those that the writers
-- got rid of are those that the readers got followed by the bytes still in it.
pub transfer-fifo :
    (ts : List Turn) (p : Pipe)
    → IsRing p
    → FindsRoom ts p
    → bytes_in p ++ (transfer ts p).0 ≡ (transfer ts p).1 ++ bytes_in (transfer ts p).2
unfolding transfer
transfer-fifo [] p v room = append-nil (bytes_in p)
transfer-fifo (put bs ∷ ts) p v room =
    let step = fill_lem bs p v in
    sym (append_assoc (bytes_in p) (take (fill bs p).1 bs) (transfer ts (fill bs p).2).0)
    ∙ ap (λ l. l ++ (transfer ts (fill bs p).2).0) (sym step.bytes)
    ∙ transfer-fifo ts (fill bs p).2 step.ring room
transfer-fifo (resume bs ∷ ts) p v (free, room) =
    let (ring, bytes) = refill_lem bs p v free in
    sym (append_assoc (bytes_in p) (take (refill bs p).1 bs) (transfer ts (refill bs p).2).0)
    ∙ ap (λ l. l ++ (transfer ts (refill bs p).2).0) (sym bytes)
    ∙ transfer-fifo ts (refill bs p).2 ring room
transfer-fifo (get n ∷ ts) p v room =
    let (ring, got, left) = drain_lem n p v in
    ap (λ l. l ++ (transfer ts (drain n p).1).0)
      (sym (take-append-drop n (bytes_in p)) ∙ ap (λ l. l ++ drop n (bytes_in p)) (sym got))
    ∙ append_assoc (drain n p).0 (drop n (bytes_in p)) (transfer ts (drain n p).1).0
    ∙ ap (λ l. (drain n p).0 ++ (l ++ (transfer ts (drain n p).1).0)) (sym left)
    ∙ ap (λ l. (drain n p).0 ++ l) (transfer-fifo ts (drain n p).1 ring room)
    ∙ sym (
        append_assoc (drain n p).0 (transfer ts (drain n p).1).1
          (bytes_in (transfer ts (drain n p).1).2))
