-- ===== src/Kernel/Guard.antt =====
-- src/shell.c: what `write` can change.
use Prim.Native.String.{String}
use kfs.Base.{
  ℕ, ◌^◌, ◌≤◌, ◌<◌, ◌≡◌, ap, sym, ◌∙◌, inl, inr, arith, ◌==◌, ltb, leb, Bool-cases, ◌&&◌, ◌∷◌, [],
  List,
}
use kfs.Machine.Mem.{store32}
use kfs.Machine.Outcome.{ok-injective, Panic, Outcome, ok, out_of_fuel, halted, >>=-eq-ok, ◌>>=◌}
use kfs.Memory.{kheap_start, kheap_end}
use kfs.Vmem.{kvmem_start, kvmem_end, vsize}
use kfs.Kernel.Info.{vmem_start, vmem_end}
use kfs.Shell.{parse_hex_or_dec}
use kfs.Kernel.{Console, Kernel, codes, set_mem}
use kfs.Kheap.{ksize}
use kfs.Kernel.Access.{write_found, typed, allocation, write_word, cmd_write}

-- `size` is what the allocator of the region says of `addr`
pub data IsAllocation (addr size : ℕ) (k : Kernel) : Type 0 where
  heap :
      kheap_start ≤ addr
      → addr < kheap_end
      → ksize addr k.kheap k.paging.mem ≡ ok size
      → IsAllocation addr size k
  virtual : vsize addr k.vmem k.paging.mem ≡ ok size → IsAllocation addr size k

-- the memory after `write`: as it was, or with one word in an allocation that has room for it
pub data Written (k k' : Kernel) : Type 0 where
  untouched : k' ≡ record k { console = k'.console } → Written k k'
  stored :
      (addr val size : ℕ)
      → IsAllocation addr size k
      → 4 ≤ size
      → 0x0010_0000 ≤ addr
      → val < 2 ^ 31
      → k' ≡ record (set_mem (store32 k.paging.mem addr val) k) { console = k'.console }
      → Written k k'

only_console :
    (c : Console) (x k' : Kernel)
    → record x { console = c } ≡ k'
    → k' ≡ record x { console = k'.console }
only_console c x k' e =
    sym e ∙ ap (λ (d : Console). record x { console = d }) (ap (λ (k : Kernel). k.console) e)

-- a size that was found, and the kernel behind the messages of the test
typed-ok :
    (type : String) (c : Console) (k : Kernel) (o : Outcome ℕ) (r : ℕ × List ℕ × Kernel)
    → typed type (o >>= λ s. ok (s, record k { console = c })) ≡ ok r
    → (o ≡ ok r.0) × (r.2 ≡ record k { console = r.2.console })
typed-ok type c k (ok a) r e =
    let whole : (a, codes type, record k { console = c }) ≡ r = ok-injective _ _ e in
    (
      ap ok (ap (λ (x : ℕ × List ℕ × Kernel). x.0) whole),
      only_console c k r.2 (ap (λ (x : ℕ × List ℕ × Kernel). x.2) whole),
    )
typed-ok type c k (halted p) r e = absurd (cc)
typed-ok type c k out_of_fuel r e = absurd (cc)

allocation-IsAllocation :
    (addr : ℕ) (k : Kernel) (r : ℕ × List ℕ × Kernel)
    → allocation addr k ≡ ok r
    → (0 < r.0 → IsAllocation addr r.0 k) × (r.2 ≡ record k { console = r.2.console })
unfolding allocation
allocation-IsAllocation addr k r e =
    elim (Bool-cases (leb kheap_start addr && ltb addr kheap_end)) [
      | inl heap_range ↦
          let (found, same) = typed-ok "kmalloc" _ k _ r (rw heap_range at e) in
          (λ pos. IsAllocation.heap (ground arith) (ground arith) found, same)
      | inr other ↦ elim (Bool-cases (leb kvmem_start addr && ltb addr kvmem_end)) [
        | inl region ↦
            let (found, same) = typed-ok "kvmalloc" _ k _ r (rw (other, region) at e) in
            (λ pos. IsAllocation.virtual found, same)
        | inr above ↦ elim (Bool-cases (leb vmem_start addr && ltb addr vmem_end)) [
          | inl user ↦
              let (found, same) = typed-ok "vmalloc" _ k _ r (rw (other, above, user) at e) in
              (λ pos. IsAllocation.virtual found, same)
          | inr none ↦
              let whole : (0, codes "unknown", k) ≡ r =
                ok-injective _ _ (rw (other, above, none) at e) in
              let zero_size : 0 ≡ r.0 = ap (λ (x : ℕ × List ℕ × Kernel). x.0) whole in
              (
                λ pos. absurd (omega (arith, pos, zero_size)),
                only_console k.console k r.2 (ap (λ (x : ℕ × List ℕ × Kernel). x.2) whole),
              )
        ]
      ]
    ]

write_found-Written :
    (addr val size : ℕ) (type : List ℕ) (c : Console) (k k' : Kernel)
    → (0 < size → IsAllocation addr size k)
    → 0x0010_0000 ≤ addr
    → val < 2 ^ 31
    → write_found addr val size type (record k { console = c }) ≡ ok k'
    → Written k k'
unfolding write_found
write_found-Written addr val size type c k k' here high small e = elim (Bool-cases (size == 0)) [
  | inl none ↦ Written.untouched (only_console _ k k' (ok-injective _ _ (rw none at e)))
  | inr some ↦ elim (Bool-cases (ltb size 4)) [
    | inl short ↦
        let stops : halted (Panic.write_overflow type size addr) ≡ ok k' = rw (some, short) at e in
        absurd (cc)
    | inr room ↦ Written.stored addr val size (here (ground arith)) (ground arith) high small (
        only_console _ (set_mem (store32 k.paging.mem addr val) k) k'
          (ok-injective _ _ (rw (some, room) at e)))
  ]
]

-- If `cmd_write` returns, it has changed nothing but the console, or it has also stored one word that
-- is not negative, not below 1 MB, at an address for which the allocator of its region reports at
-- least 4 bytes.
pub cmd_write-Written :
    (argv : List (List ℕ)) (k k' : Kernel) → cmd_write argv k ≡ ok k' → Written k k'
unfolding cmd_write write_word
cmd_write-Written (name ∷ a ∷ v ∷ rest) k k' e =
    let addr : ℕ = parse_hex_or_dec a in
    let val : ℕ = parse_hex_or_dec v in
    elim (Bool-cases (ltb 0x7fff_ffff val)) [
      | inl big ↦ Written.untouched (only_console _ k k' (ok-injective _ _ (rw big at e)))
      | inr small ↦ elim (Bool-cases (ltb addr 0x0010_0000)) [
        | inl bios ↦
            let stops : halted (Panic.write_bios addr) ≡ ok k' = rw (small, bios) at e in
            absurd (cc)
        | inr high ↦
            let (r, found, h) = >>=-eq-ok (allocation addr k) _ k' (rw (small, high) at e) in
            let (owner, same) = allocation-IsAllocation addr k r found in
            write_found-Written addr val r.0 r.1 r.2.console k k' owner (ground arith)
              (ground arith) (rw same at h)
      ]
    ]
cmd_write-Written [] k k' e = Written.untouched (only_console _ k k' (ok-injective _ _ e))
cmd_write-Written (name ∷ []) k k' e = Written.untouched (only_console _ k k' (ok-injective _ _ e))
cmd_write-Written (name ∷ a ∷ []) k k' e =
    Written.untouched (only_console _ k k' (ok-injective _ _ e))
