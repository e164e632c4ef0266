-- ===== src/Capture/Drain.antt =====
-- The loop over the buffers: all that the firmware has filled, in order, each once.
use mathlib.Core.List.{append-nil, append_assoc}
use nadrvlinux.Prelude.{
  ℕ, listed, zero, suc, ◌+◌, ◌^◌, ◌<◌, bit_xor, Bool, true, false, not, ◌&&◌, List, [], ◌∷◌, ◌++◌,
  map, get_or, ◌==◌, ==_iff, if◌then◌else◌, ◌≡◌, refl, sym, ap, ap₂, ◌∙◌, inl, inr, Bool-cases,
  arith,
}
use nadrvlinux.Prelude.Bits.{is_set-two_pow, test_bit, test_bit-bit_xor, test_bit-two_pow, differs}
use nadrvlinux.Device.{Device}
use nadrvlinux.System.{System}
use nadrvlinux.System.Run.{Run, Run->>=, Run-weaken}
use nadrvlinux.Handshake.{toggle_bit, newdata_bit}
use nadrvlinux.Capture.{no_buffer, process_buffer, drain, process_data}
use nadrvlinux.Capture.Buffers.{cleared, cleared-lt, test_bit-cleared}
use nadrvlinux.Capture.Files.{Roomy, callbacks}
use nadrvlinux.Capture.Deliver.{
  payload, FilesReady, Ready, core_of, next_buffer, Processed, process_buffer-Processed,
}

-- `n` buffers in a row, from `b` on.
unfoldable pub in_turn : (count n b : ℕ) → List ℕ
in_turn count zero b = []
in_turn count (suc n) b = b ∷ in_turn count n (next_buffer count b)

unfoldable pub after_turns : (count n b : ℕ) → ℕ
after_turns count zero b = b
after_turns count (suc n) b = after_turns count n (next_buffer count b)

-- The buffers that hold data: their two flags differ.
abbrev pub in_use : Device → ℕ → Bool
in_use d b = test_bit (bit_xor d.host.buffer_flags d.status.buffer_flags) b

-- What the loop has done when it returns, after some number of rounds.
pub record Drained (s s' : System) (n : ℕ) : Type 0 where
  pub same_core : core_of s'.device ≡ core_of s.device
  pub current_after :
      s'.device.current_buffer ≡ after_turns s.device.dma_buffer_count n s.device.current_buffer
  pub nothing_left : in_use s'.device s'.device.current_buffer ≡ false
  pub freed :
      (b : ℕ)
      → b < 32
      → in_use s'.device b ≡ (
          in_use s.device b
          && not (listed b (in_turn s.device.dma_buffer_count n s.device.current_buffer)))
  pub given :
      callbacks s'.trace
      ≡ callbacks s.trace
        ++ (if s.device.has_data
            then map
                (payload s.device)
                (in_turn s.device.dma_buffer_count n s.device.current_buffer)
            else [])
  pub ready_after : Ready s'.device
  pub accepts_after : s'.accepts ≡ s.accepts

-- The loop's copy of the flags shows what is in use.
abbrev Tracks : ℕ → Device → Type 0
Tracks used d = (b : ℕ) → b < 32 → test_bit used b ≡ in_use d b

module _ (s t : System) (p : Processed s t) where
  Processed-Ready : Ready s.device → Ready t.device
  Processed-Ready r = record {
    count_small = omega (arith, r.count_small, count);
    current = ground (arith, r.current, r.count_small, count, p.next);
    good_sizes = λ b h. grind (
      arith,
      r.good_sizes b (omega (arith, count)),
      ap (λ (d : Device). get_or d.status.used_buffer_size b 0) p.same_core,
      ap (λ (d : Device). (get_or d.dma_buffers b no_buffer).buffer_size) p.same_core,
    );
    files = p.files_after;
  }
    where
      count : t.device.dma_buffer_count ≡ s.device.dma_buffer_count
      count = ap (λ (d : Device). d.dma_buffer_count) p.same_core

  -- The flags of the buffer agree afterwards, if they did not before.
  Processed-in_use :
      (b : ℕ) → in_use t.device b ≡ differs (s.device.current_buffer == b) (in_use s.device b)
  Processed-in_use b = ground (
    arith,
    ap (λ n. test_bit n b) p.flags,
    ap (λ (d : Device). d.status.buffer_flags) p.same_core,
    test_bit-bit_xor t.device.host.buffer_flags t.device.status.buffer_flags b,
    test_bit-bit_xor s.device.host.buffer_flags s.device.status.buffer_flags b,
    test_bit-bit_xor s.device.host.buffer_flags (2 ^ s.device.current_buffer) b,
    test_bit-two_pow s.device.current_buffer b,
  )

given_more :
    {A : Type 0} (b : Bool) (xs ys : List A) (x : A)
    → (xs ++ (if b then x ∷ [] else [])) ++ (if b then ys else [])
      ≡ xs ++ (if b then x ∷ ys else [])
given_more true xs ys x = append_assoc xs (x ∷ []) ys
given_more false xs ys x = append-nil (xs ++ []) ∙ refl

given_none : {A : Type 0} (b : Bool) (xs : List A) → xs ++ (if b then [] else []) ≡ xs
given_none true xs = append-nil xs
given_none false xs = append-nil xs

-- A round before the rest of the rounds.
more_rounds :
    (s t s' : System) (n : ℕ)
    → Ready s.device
    → in_use s.device s.device.current_buffer ≡ true
    → Processed s t
    → Drained t s' n
    → Drained s s' (suc n)
unfolding in_turn after_turns
more_rounds s t s' n r filled p later = record {
  same_core = later.same_core ∙ p.same_core;
  current_after = later.current_after ∙ ap₂ (λ c b. after_turns c n b) count p.next;
  nothing_left = later.nothing_left;
  freed = λ b h. ground (
    arith,
    later.freed b h,
    ap₂ (λ c k. listed b (in_turn c n k)) count p.next,
    Processed-in_use s t p b,
    this_one b,
  );
  given =
      later.given
      ∙ ap₂ ◌++◌ p.given (
          ap
            (λ (d : Device).
              if d.has_data
              then map (payload d) (in_turn d.dma_buffer_count n t.device.current_buffer)
              else [])
            p.same_core
          ∙ ap
              (λ k.
                if s.device.has_data
                then map (payload s.device) (in_turn s.device.dma_buffer_count n k)
                else [])
              p.next)
      ∙ given_more s.device.has_data (callbacks s.trace) _ _;
  ready_after = later.ready_after;
  accepts_after = later.accepts_after ∙ p.accepts_after;
}
  where
    count : t.device.dma_buffer_count ≡ s.device.dma_buffer_count
    count = ap (λ (d : Device). d.dma_buffer_count) p.same_core

    this_one : (b : ℕ) → (s.device.current_buffer == b) ≡ true → in_use s.device b ≡ true
    this_one b e = ap (in_use s.device) (sym ((==_iff s.device.current_buffer b).0 e)) ∙ filled

-- The number that is tested gets smaller with each round, so that the fuel is enough.
pub drain-Drained :
    (fuel used : ℕ) (s : System)
    → Roomy s
    → Ready s.device
    → Tracks used s.device
    → used < fuel
    → Run (drain fuel used) s (λ u s'. (n : ℕ) × Drained s s' n)
unfolding Run drain cleared in_turn after_turns
drain-Drained zero used s roomy r tracks enough = absurd (omega arith)
drain-Drained (suc fuel) used s roomy r tracks enough =
    elim (Bool-cases (test_bit used s.device.current_buffer)) [
      | inr empty ↦
          rw (is_set-two_pow used s.device.current_buffer ∙ empty, drain)
            (
              0,
              record {
                same_core = refl;
                current_after = refl;
                nothing_left = sym (tracks s.device.current_buffer small) ∙ empty;
                freed = λ b h. ground arith;
                given = sym (given_none s.device.has_data (callbacks s.trace));
                ready_after = r;
                accepts_after = refl;
              },
            )
      | inl filled ↦
          rw (is_set-two_pow used s.device.current_buffer ∙ filled, drain)
            (Run->>= process_buffer (λ u. drain fuel (cleared used s.device.current_buffer)) s
              (λ u t. Processed s t) (λ u s'. (n : ℕ) × Drained s s' n)
              (process_buffer-Processed s roomy r)
              (λ u t p.
                Run-weaken (drain fuel (cleared used s.device.current_buffer)) t
                  (λ u s'. (n : ℕ) × Drained t s' n) (λ u s'. (n : ℕ) × Drained s s' n)
                  (drain-Drained fuel (cleared used s.device.current_buffer) t
                    (λ n len. ap (λ (f : ℕ → ℕ → ℕ). f n len) p.accepts_after ∙ roomy n len)
                    (Processed-Ready s t p r)
                    (λ b h. ground (
                      arith,
                      tracks b h,
                      test_bit-cleared used s.device.current_buffer b small h,
                      Processed-in_use s t p b,
                    ))
                    (ground (arith, cleared-lt used s.device.current_buffer small filled)))
                  (λ u s' (n, later). (
                    suc n,
                    more_rounds s t s' n r (sym (tracks s.device.current_buffer small) ∙ filled) p
                        later,
                  ))))
    ]
  where
    small : s.device.current_buffer < 32
    small = omega (arith, r.current, r.count_small)

FilesReady-toggle_bit : (bit : ℕ) (d : Device) → FilesReady d → FilesReady (toggle_bit bit d)
unfolding toggle_bit
FilesReady-toggle_bit bit d (inl off) = inl off
FilesReady-toggle_bit bit d (inr (w, ring)) = inr (
  record {
    opened = w.opened;
    count_small = w.count_small;
    current = w.current;
    large = w.large;
    size_small = w.size_small;
    counted = w.counted;
    bounded = w.bounded;
  },
  ring,
)

pub Ready-toggle_bit : (bit : ℕ) (d : Device) → Ready d → Ready (toggle_bit bit d)
unfolding toggle_bit
Ready-toggle_bit bit d r = record {
  count_small = r.count_small;
  current = r.current;
  good_sizes = r.good_sizes;
  files = FilesReady-toggle_bit bit d r.files;
}

-- The handling of new data returns, whatever the flags are, on a device whose firmware reports sizes
-- that its buffers have, and that captures to no file or to a ring of files in order, on a disk that
-- takes all it is given. It passes on the data of some number of buffers in turn, from the current one
-- on, gives exactly these back, and stops at one that holds no data; the current file stays within
-- its size. Nothing but the files, the current buffer, its flags and the toggled handshake bit changes.
pub process_data-Drained :
    (s : System)
    → Roomy s
    → Ready s.device
    → Run process_data s
        (λ u s'. (n : ℕ) × Drained (record s { device = toggle_bit newdata_bit s.device }) s' n)
unfolding Run process_data
process_data-Drained s roomy r =
    let s1 = record s { device = toggle_bit newdata_bit s.device } in
    let used = bit_xor s1.device.host.buffer_flags s1.device.status.buffer_flags in
    drain-Drained (used + 1) used s1 roomy (Ready-toggle_bit newdata_bit s.device r) (λ b h. refl)
      (omega arith)
