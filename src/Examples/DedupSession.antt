-- ===== src/Examples/DedupSession.antt =====
-- processRequests of pkg/usbdlib/reqproc.go on a new deduplicating disk of four blocks of two bytes: a
-- client that writes two equal blocks and reads three.
use usbd.Base.{
  pos, ℕ, ◌*◌, ◌^◌, ◌<◌, ◌≡◌, refl, ◌⊎◌, false, none, List, [], ◌∷◌, ◌++◌, arith, replicate,
}
use usbd.Usbdlib.Header.{linux, linux-IsHeader}
use usbd.Usbdlib.Device.{Device}
use usbd.Usbdlib.Session.System.{worker_count, Net, Move, Runs, start_of}
use usbd.Examples.Session.{a_run}
use usbd.Usbdlib.Session.Client.{
  Op, read_op, write_op, AreServable, replies_to, reply_header, writes_of,
}
use usbd.Dedupdisk.Device.{DedupDisk, device}
use usbd.Dedupdisk.Device.Contract.{blocks_in, AllBlocks}
use usbd.Dedupdisk.Impls.{Parts, impls, new_dedup_disk}
use usbd.Dedupdisk.Impls.Contract.{Block}
use usbd.Dedupdisk.Impls.Disk.{new_parts}
use usbd.Dedupdisk.Impls.Served.{new_disk-served}
use usbd.Examples.Devices.{
  Entries, value, memory, hash, Any, faults, some_bytes, fits, memory-IsDb, memory-IsHealthyDb,
  no_collision, two_blocks,
}

abbrev tag : ℕ → List ℕ
tag n = n ∷ 0 ∷ 0 ∷ 0 ∷ 0 ∷ 0 ∷ 0 ∷ 0 ∷ []

abbrev ops : List Op
ops = write_op (tag 1) 2 (7 ∷ 8 ∷ 7 ∷ 8 ∷ []) ∷ read_op (tag 2) 0 6 ∷ []

ops-AreServable : AreServable linux 2 (4 * 2) ops
ops-AreServable = (
  record {
    handle_fits = refl;
    pos_fits = omega arith;
    count_fits = omega arith;
    in_disk = record {
      inside = omega arith;
      start_aligned = refl;
      count_aligned = refl;
      some_bytes = omega arith;
    };
  },
  (
    record {
      handle_fits = refl;
      pos_fits = omega arith;
      count_fits = omega arith;
      in_disk = record {
        inside = omega arith;
        start_aligned = refl;
        count_aligned = refl;
        some_bytes = omega arith;
      };
    },
    tt,
  ),
)

ops_blocks : AllBlocks (Block value hash Any 2 4 some_bytes fits) 2 (writes_of linux ops)
unfolding AllBlocks
ops_blocks = (two_blocks, tt)

ops_room : blocks_in 2 (writes_of linux ops) * 2 < 2 ^ 63
unfolding blocks_in
ops_room = omega arith

abbrev disk : Device (DedupDisk (Parts Entries))
disk = device (impls (faults none) memory hash) 2

full_run :
    (t : Net (DedupDisk (Parts Entries))) × Runs linux disk
      (worker_count (pos 24) (pos 0))
      (start_of ops [] (new_dedup_disk 2 (new_parts 2 4 [])))
      10
      t
full_run =
    a_run disk (worker_count (pos 24) (pos 0))
      (start_of ops [] (new_dedup_disk 2 (new_parts 2 4 []))) 10
      (λ k t. (t.waits ≡ false) × (t.sent ≡ [] ++ replies_to linux ops (replicate (4 * 2) 0))) 10
      (omega arith)
      (λ k t runs.
        new_disk-served value hash Any 2 4 some_bytes fits (faults none) memory memory-IsDb
          memory-IsHealthyDb (λ id. refl) no_collision [] (λ key. refl) linux linux-IsHeader
          (pos 24) (pos 0) ops [] ops-AreServable ops_blocks ops_room runs)

new_disk-served_example :
    (◌≡◌ {A = ℕ} 10 10
      × ((full_run.0.waits ≡ false)
          × (full_run.0.sent
              ≡ reply_header linux (tag 1)
                ++ ((reply_header linux (tag 2) ++ (0 ∷ 0 ∷ 7 ∷ 8 ∷ 7 ∷ 8 ∷ [])) ++ []))))
    ⊎ ((10 < 10)
        × ((u : Net (DedupDisk (Parts Entries))) × Move linux disk
              (worker_count (pos 24) (pos 0))
              full_run.0
              u))
new_disk-served_example =
    new_disk-served value hash Any 2 4 some_bytes fits (faults none) memory memory-IsDb
      memory-IsHealthyDb (λ id. refl) no_collision [] (λ key. refl) linux linux-IsHeader (pos 24)
      (pos 0) ops [] ops-AreServable ops_blocks ops_room full_run.1
