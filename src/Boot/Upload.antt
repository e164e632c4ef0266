-- ===== src/Boot/Upload.antt =====
-- A download through the mailbox of the boot loader puts the packets of the file into it.
use mathlib.Core.List.{append-nil}
use nadrvlinux.Prelude.{
  ℕ, ◌+◌, ◌*◌, ◌≤◌, ◌<◌, ◌^◌, not, Option, none, some, List, [], ◌++◌, length, replicate, ◌==◌,
  if◌then◌else◌, ◌≡◌, ◌≢◌, sym, ap, subst, ◌∙◌, ◌⊎◌, inl, inr, arith,
}
use nadrvlinux.Codes.{no_error}
use nadrvlinux.Boot.{BootSystem}
use nadrvlinux.Boot.Wire.{Line, transfer_on, on_line, download, max_packet_size}
use nadrvlinux.Boot.Polling.{Steady, Reaches}
use nadrvlinux.Download.{Packet, Request, Download, aborting, rounds, download_file, start}
use nadrvlinux.Download.Progress.{recorded}
use nadrvlinux.Download.Laws.{all_packets, Delivered, download_file-Delivered}
use nadrvlinux.Boot.Unlogged.{unlogged, rounds-unlogged}
use nadrvlinux.Boot.Rounds.{wires, spell, EndSound, rounds-EndSound}

-- What a download leaves on the card: without error, its packets in the mailbox one after the other.
abbrev pub Uploaded : Request → BootSystem → Option (ℕ × BootSystem) → Type 0
Uploaded q s none = ⊥
Uploaded q s (some (code, s')) =
    (code ≢ no_error)
    ⊎ ((size : ℕ) × (0 < size)
        × (size + 48 ≤ q.mailbox_size)
        × (s'.posted ≡ s.posted ++ wires (all_packets q size)))

-- The code that the caller gets of the last state.
abbrev code_of : Download → ℕ
code_of d =
    if not (d.ret == no_error)
    then d.ret
    else if not (d.ret_abort == no_error)
    then d.ret_abort
    else no_error

abbrev result : {W : Type 0} → Option (Download × W) → Option (ℕ × W)
result none = none
result (some (d, w)) = some (code_of d, w)

module _ (gap limit clock : ℕ) (q : Request) (s : BootSystem) where
  unlogged-Uploaded :
      (o : Option (Download × (Line × List Packet)))
      → EndSound gap limit s.posted clock o
      → (size : ℕ) × (0 < size)
        × (size + 48 ≤ q.mailbox_size)
        × Delivered (all_packets q size) (result o)
      → Uploaded q s (on_line (result (unlogged transfer_on o)))
  unlogged-Uploaded none sound (size, positive, fits, delivered) = delivered
  unlogged-Uploaded (some (d, (none, log))) sound delivered = sound.1
  unlogged-Uploaded (some (d, (some (s', received), log))) (bad, (going, inl posts))
        (size, positive, fits, inl (good, e)) =
      inr (size, positive, fits, posts ∙ ap (λ (ps : List Packet). s.posted ++ wires ps) e)
  unlogged-Uploaded (some (d, (some (s', received), log))) (bad, (going, inr stopped))
        (size, positive, fits, inl (good, e)) =
      inl (ground (arith, bad stopped))
  unlogged-Uploaded (some (d, (some (s', received), log))) sound
        (size, positive, fits, inr (failed, e)) =
      inl failed

start-ret : (q : Request) → (start q).state ≡ aborting → (start q).ret ≢ no_error
unfolding start
start-ret q = ground arith

-- A download through the mailbox of the boot loader, of a file and a mailbox below 4 GB, with more room
-- in the mailbox than the header of a data packet. If the clock of the card goes on by steps of at most
-- `gap` milliseconds, without a wrap-around, long enough for three transfers more than the file has
-- bytes, the download returns: with an error, or the host has put into the mailbox the bytes of the
-- request and of the data packets of the whole file, in order, in blocks of a size that the mailbox
-- holds, and nothing else.
pub download-Uploaded :
    (q : Request) (s : BootSystem) (gap clock : ℕ)
    → 48 < q.mailbox_size
    → length q.file + q.mailbox_size ≤ 2 ^ 32
    → Steady gap clock s.polls
    → Reaches (clock + (length q.file + 3) * spell gap) s.polls
    → Uploaded q s (download q s)
unfolding download download_file
download-Uploaded q s gap clock roomy bounded steady reaches =
    subst (λ (o : Option (Download × Line)). Uploaded q s (on_line (result o)))
      (rounds-unlogged transfer_on (length q.file + 3) q (start q) line [])
      (unlogged-Uploaded gap limit limit q s
        (rounds (recorded transfer_on) (length q.file + 3) q (start q) (line, []))
        (rounds-EndSound gap limit s.posted (length q.file + 3) clock q (start q) line []
          (omega arith)
          (start-ret q, ((clock, omega arith, steady, reaches), inl (sym (append-nil s.posted)))))
        (download_file-Delivered transfer_on q line roomy bounded))
  where
    line : Line
    line = some (s, replicate max_packet_size 0)

    limit : ℕ
    limit = clock + (length q.file + 3) * spell gap
