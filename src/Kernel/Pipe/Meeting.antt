-- ===== src/Kernel/Pipe/Meeting.antt =====
-- kernel/fs/pipe.cpp: opening the two ends of a named pipe.
use shit_os.Prelude.{ℕ, ◌<◌, ◌≡◌, refl, ap, arith, Bool, true, []}
use shit_os.Kernel.Pipe.Buffer.{
  PipeBuffer, Access, answers, used, opened, announce, peer_came, withdraw, await_peer, read,
  rdonly,
}
use shit_os.Kernel.Pipe.Poll.{is_hung_up-read}

await_peer_met :
    (signalled : Bool) (access : Access) (entry : ℕ) (p : PipeBuffer)
    → peer_came access entry p ≡ true
    → await_peer signalled access entry p ≡ (answers tt, withdraw access p)
unfolding await_peer
await_peer_met signalled access entry p e = rw (e) refl

-- An empty named pipe whose only writer has announced itself, and is not yet counted: a reader that opens
-- it does not wait, and once it has its description its read answers the end of file, though the writer
-- is still about to write.
pub early_end_of_file :
    (signalled : Bool) (n : ℕ) (p : PipeBuffer)
    → used p ≡ 0
    → p.writers ≡ 0
    → 0 < p.pending_writers
    → let entered = announce rdonly p in
      let met = await_peer signalled rdonly entered.0 entered.1 in
      let reading = opened rdonly met.1 in
      (met.0 ≡ answers tt)
      × (0 < reading.pending_writers)
      × ((read signalled n reading).0 ≡ answers [])
early_end_of_file signalled n p empty none pending =
    let entered = announce rdonly p in
    let came : peer_came rdonly entered.0 entered.1 ≡ true = ground arith in
    let met = await_peer_met signalled rdonly entered.0 entered.1 came in
    let over =
      is_hung_up-read signalled n (opened rdonly (withdraw rdonly entered.1)) (ground arith) in
    rw (met) (refl, pending, ap (λ r. r.0) over)
