-- ===== src/Vhost/Peer.antt =====
-- internal/vhost/vu: what a hostile guest can make of a queue.
use pvm.Prelude.{ℕ, ◌≤◌, ◌≡◌, ◌≢◌, subst, Bool, some, List, arith, Result, ok, err, All}
use pvm.Vhost.Memory.{Error, panicked, Guest, Bytes, Table, max64, set_mem_table}
use pvm.Vhost.Ring.{Elem, Vring, VringAddr, pop, translate_sg, setup}
use pvm.Vhost.Mapped.{IsRegion}
use pvm.Vhost.Request.{Gives, IsReady, IsRequest}
use pvm.Vhost.Served.{Popped, pop-Gives}
use pvm.Vhost.Tables.{IsMapped, translate_sg-Gives, Bound, setup-Bound, set_mem_table-IsRegion}

Gives-ne {ℓ} : {A : Type ℓ} (P : A → Type 0) (r : Result Error A) → Gives P r → r ≢ err panicked
Gives-ne P (ok a) h q = cc
Gives-ne P (err x) h q = h (ground arith)

Gives-ok {ℓ} :
    {A : Type ℓ} (P : A → Type 0) (r : Result Error A) (a : A) → Gives P r → r ≡ ok a → P a
Gives-ok P r a h q = subst (Gives P) q h

at_base : (v : Vring) (n : ℕ) → IsReady v → IsReady (record v { last_avail = n })
at_base v n k = record {
  some_num = k.some_num;
  desc = k.desc;
  is_desc = k.is_desc;
  desc_len = k.desc_len;
  avail = k.avail;
  is_avail = k.is_avail;
  avail_len = k.avail_len;
}

-- Once a queue's tables are set up over a memory table that `setMemTable` has left, wherever the guest
-- lets the queue start or has come to, and whatever it has written into its memory, `pop` does not panic;
-- neither does `translateSG` on the request that it gives; and every buffer that this hands to the
-- device lies wholly inside one mapped region, and is not empty.
pub pop-IsMapped :
    (mmap : ℕ → ℕ → ℕ → Bool) (p : Bytes) (fds : List ℕ) (t : Table) (a : VringAddr) (v : Vring)
    (g : Guest) (n : ℕ)
    → All IsRegion t.regions
    → (a.desc ≤ max64) × (a.avail ≤ max64)
    → (setup (set_mem_table mmap p fds t).0.regions a v).1 ≡ ok tt
    → ((pop
          (set_mem_table mmap p fds t).0.regions
          g
          (record (setup (set_mem_table mmap p fds t).0.regions a v).0 { last_avail = n })).1
        ≢ err panicked)
      × ((e : Elem)
          → (pop
              (set_mem_table mmap p fds t).0.regions
              g
              (record (setup (set_mem_table mmap p fds t).0.regions a v).0 { last_avail = n })).1
            ≡ ok (some e)
          → (translate_sg (set_mem_table mmap p fds t).0.regions e ≢ err panicked)
            × ((e' : Elem)
                → translate_sg (set_mem_table mmap p fds t).0.regions e ≡ ok e'
                → IsMapped (set_mem_table mmap p fds t).0.regions e'))
pop-IsMapped mmap p fds t a v g n h m q =
    let rs = (set_mem_table mmap p fds t).0.regions in
    let good = set_mem_table-IsRegion mmap p fds t h in
    let v' = (setup rs a v).0 in
    let ready = subst (Bound v') q (setup-Bound rs a v good m) in
    let gives = pop-Gives rs g (record v' { last_avail = n }) good (at_base v' n ready) in
    (
      Gives-ne (Popped rs g) _ gives,
      λ e o.
          let request : IsRequest e = Gives-ok (Popped rs g) _ (some e) gives o in
          let sg = translate_sg-Gives rs e good request in
          (Gives-ne (IsMapped rs) _ sg, λ e' o'. Gives-ok (IsMapped rs) _ e' sg o'),
    )
