-- ===== src/Kheap/RoundTrip.antt =====
-- src/kheap.c: `kmalloc` followed by `kfree` of its result.
use kfs.Base.{ℕ, ◌+◌, ◌-◌, ◌%◌, ◌^◌, ◌≤◌, ◌<◌, ◌≡◌, List, arith}
use kfs.Machine.Mem.{Mem}
use kfs.Machine.Word.{add32, sub32}
use kfs.Machine.Outcome.{ok}
use kfs.Kheap.{Kheap, header_size, round_up, kmalloc, kfree}
use kfs.Kheap.Blocks.{Block, IsCoalesced}
use kfs.Kheap.Chain.{IsHeap}
use kfs.Kheap.Malloc.{Malloc, charge, exhausted, granted, kmalloc-first_fit, round_up-lt}
use kfs.Kheap.Free.{discharge, kfree-release}
use kfs.Kheap.Policy.{FirstFit-first_fit, FirstFit-InUse, FirstFit-release}

drift_lem :
    (used n s : ℕ)
    → n ≤ s
    → s < n + 32
    → add32 (sub32 (add32 used (n + header_size)) (s + header_size)) (s - n) ≡ used % 2 ^ 32
drift_lem used n s lo hi = omega arith

-- A call of `kmalloc` that returned `p`, followed by `kfree` at `p`.
pub record Undone (size : ℕ) (p : ℕ) (h h' : Kheap) (m' : Mem) (bs : List Block) : Type 0 where
  pub taken : ℕ
  pub enough : (size ≤ taken) × (taken < size + 40)
  pub heap : Kheap
  pub memory : Mem
  pub returns : kfree p h' m' ≡ ok (heap, memory)
  pub valid : IsHeap heap memory bs
  pub drift : add32 heap.heap_used (taken - round_up size) ≡ h.heap_used % 2 ^ 32

-- If `kmalloc`, for a size from 1 on whose rounding does not wrap, returned on a heap without two free
-- neighbours, `kfree` of its result succeeds and restores the list of blocks. The count `heap_used` then
-- falls short by the bytes that the block has beyond the rounded request.
pub kfree-kmalloc :
    {h h' : Kheap} {m m' : Mem} {bs : List Block} {p : ℕ} (size : ℕ)
    → IsHeap h m bs
    → IsCoalesced bs
    → 0 < size
    → size < 2 ^ 32 - 7
    → kmalloc size h m ≡ ok (p, h', m')
    → Undone size p h h' m' bs
kfree-kmalloc {h} {h'} {m} {m'} {bs} {p} size v apart pos small e =
    go (kmalloc-first_fit size v pos small)
  where
    go : Malloc size h m bs → Undone size p h h' m' bs
    go (exhausted none_fit f) = absurd (cc)
    go (granted q cs n first f valid owned outside) =
        let same_p : p ≡ q + header_size = cc in
        let same_h : h' ≡ charge size h = cc in
        let same_m : m' ≡ n = cc in
        let fit = FirstFit-first_fit (round_up size) h.heap_base bs q cs first in
        let (s, u, lo, hi) = FirstFit-InUse (round_up size) h.heap_base bs q cs fit in
        let back = FirstFit-release (round_up size) h.heap_base bs q cs fit apart in
        let r = kfree-release {h = charge size h} {m = n} q s valid u in
        let bounds = round_up-lt size small in
        record {
          taken = s;
          enough = (omega arith, omega arith);
          heap = discharge s (charge size h);
          memory = r.memory;
          returns = rw (same_p, same_h, same_m) r.returns;
          valid = rw back.0 at r.valid;
          drift = drift_lem h.heap_used (round_up size) s lo hi;
        }
