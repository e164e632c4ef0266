-- ===== src/Boot/Liveness.antt =====
-- A transfer through the boot loader's mailbox ends, and ends without error only with the answer.
use nadrvlinux.Prelude.{
  ℕ, zero, suc, ◌+◌, ◌*◌, ◌≤◌, ◌<◌, ◌^◌, sub32, Bool, true, false, not, Option, none, some, List,
  [], ◌∷◌, ◌++◌, length, ltb, ◌==◌, ==_iff, if◌then◌else◌, Bool-cases, ◌≡◌, ◌≢◌, refl, subst, ◌⊎◌,
  inl, inr, arith,
}
use nadrvlinux.Codes.{no_error, transfer_timeout}
use nadrvlinux.Boot.{
  BootSystem, B, done, ◌>>=◌, milliseconds, put_packet_bl, is_answer, transfer_rounds,
  transfer_packet,
}
use nadrvlinux.Boot.Polling.{Steady, Reaches, Alive, Alive-settled, milliseconds-Then}
use nadrvlinux.Boot.Transfer.{posted_bytes, Put, put_packet-Then, get_packet-Then}

-- What a loop that waits for the answer leaves.
abbrev Replied :
    (gap limit late : ℕ) → List (List ℕ) → List ℕ → Option ((ℕ × List ℕ) × BootSystem) → Type 0
Replied gap limit late q sent none = ⊥
Replied gap limit late q sent (some ((code, got), s)) =
    (code ≡ no_error → is_answer sent got ≡ true) × Alive gap limit 0 late (length s.polls) q s

module _ (gap limit start timeout size : ℕ) (q : List (List ℕ)) (sent : List ℕ)
    (enough : start + 2 * timeout + 5 * gap ≤ limit) where
  abbrev Answered : Option ((ℕ × List ℕ) × BootSystem) → Type 0
  Answered = Replied gap limit (start + 2 * timeout + 5 * gap) q sent

  abbrev Ends : ℕ → Type 0
  Ends fuel =
      (clock n : ℕ) (received : List ℕ) (s : BootSystem)
      → n < fuel
      → clock ≤ start + timeout + 2 * gap
      → Alive gap limit start clock n q s
      → Answered (transfer_rounds fuel start sent received size timeout s)

  -- One round, when those that follow it end.
  round-Replied : (fuel : ℕ) → Ends fuel → Ends (suc fuel)
  unfolding transfer_rounds
  round-Replied fuel rest clock n received s h k a =
      get_packet-Then Answered gap limit start clock n q s a received size timeout _
        (omega (arith, k, enough))
        (λ got s' b.
          checked got s' b (got.0 == no_error) (is_answer sent got.1) (==_iff got.0 no_error).1
            refl)
    where
      after : ℕ
      after = clock + gap + timeout + gap

      next : ℕ × List ℕ → ℕ → B (ℕ × List ℕ)
      next got now =
          if ltb (sub32 now start) timeout
          then transfer_rounds fuel start sent got.1 size timeout
          else done (transfer_timeout, got.1)

      again :
          (got : ℕ × List ℕ) (now m : ℕ) (s' : BootSystem)
          → start ≤ now
          → now < 2 ^ 32
          → now ≤ after + gap
          → suc m ≤ n
          → Alive gap limit now now m q s'
          → Answered (next got now s')
      again got now m s' low small high shorter b =
          elim (Bool-cases (ltb (sub32 now start) timeout)) [
            | inl early ↦ rw early (
                rest now m got.1 s' (omega (arith, shorter, h)) (ground (arith, early, low, small))
                  (record {
                    last = b.last;
                    not_before = omega (arith, low, b.not_before);
                    not_after = b.not_after;
                    steady = b.steady;
                    reaches = b.reaches;
                    left = b.left;
                    posts = b.posts;
                  }))
            | inr late ↦ rw late (
              λ e. absurd (omega (arith, e)),
              Alive-settled gap limit now now _ m q s' (omega (arith, high, k)) b,
            )
          ]

      checked :
          (got : ℕ × List ℕ) (s' : BootSystem)
          → Alive gap limit start after n q s'
          → (fine answer : Bool) → (got.0 ≡ no_error → fine ≡ true)
          → is_answer sent got.1 ≡ answer
          → Answered (
              (if not fine
                  then done got
                  else if answer
                  then done got
                  else (milliseconds >>= next got))
                s')
      checked got s' b false answer bad e = (
        λ z. absurd (cc (bad z)),
        Alive-settled gap limit start after _ n q s' (omega (arith, k)) b,
      )
      checked got s' b true true bad e =
          (λ _. e, Alive-settled gap limit start after _ n q s' (omega (arith, k)) b)
      checked got s' b true false bad e =
          milliseconds-Then (next got) Answered gap limit start after n q s'
            (omega (arith, k, enough)) b
            (λ now m s2 low high small shorter c. again got now m s2 low small high shorter c)

  rounds-Replied : (fuel : ℕ) → Ends fuel
  unfolding transfer_rounds
  rounds-Replied zero clock n received s h k a = absurd (omega (arith, h))
  rounds-Replied (suc fuel) clock n received s h k a =
      round-Replied fuel (rounds-Replied fuel) clock n received s h k a

-- What a transfer leaves of the card that goes on.
abbrev pub Onward :
    (gap limit late : ℕ) → List (List ℕ) → List ℕ → Option ((ℕ × List ℕ) × BootSystem) → Type 0
Onward gap limit late q sent none = ⊥
Onward gap limit late q sent (some ((code, got), s)) =
    ((code ≡ no_error → is_answer sent got ≡ true)
      × Alive gap limit 0 late (length s.polls) (q ++ posted_bytes sent ∷ []) s)
    ⊎ ((code ≢ no_error) × Alive gap limit 0 late (length s.polls) q s)

pub transfer_packet-Onward :
    (sent received : List ℕ) (size timeout gap limit clock : ℕ) (s : BootSystem)
    → clock + 2 * timeout + 6 * gap ≤ limit
    → Steady gap clock s.polls
    → Reaches limit s.polls
    → Onward gap limit
        (clock + 2 * timeout + 6 * gap)
        s.posted
        sent
        (transfer_packet sent received size timeout s)
unfolding transfer_packet
transfer_packet-Onward sent received size timeout gap limit clock s enough steady reaches =
    milliseconds-Then begun (Onward gap limit late s.posted sent) gap limit clock clock
      (length s.polls) s.posted s (omega (arith, enough))
      (record {
        last = clock;
        not_before = omega arith;
        not_after = omega arith;
        steady = steady;
        reaches = reaches;
        left = omega arith;
        posts = refl;
      })
      (λ start m s' low high small shorter b.
        put_packet-Then (Onward gap limit late s.posted sent) gap limit start start m s.posted s' b
          sent timeout (awaited start) (omega (arith, high, enough))
          (λ code q s2 put c.
            decided start code m q s2 high put c (code == no_error) (==_iff code no_error)))
  where
    late : ℕ
    late = clock + 2 * timeout + 6 * gap

    awaited : ℕ → ℕ → B (ℕ × List ℕ)
    awaited start code s =
        (if code == no_error
            then transfer_rounds (suc (length s.polls)) start sent received size timeout
            else done (code, received))
          s

    begun : ℕ → B (ℕ × List ℕ)
    begun start = put_packet_bl sent timeout >>= awaited start

    replied :
        (later : ℕ) (o : Option ((ℕ × List ℕ) × BootSystem)) (q : List (List ℕ))
        → later ≤ late
        → q ≡ s.posted ++ posted_bytes sent ∷ []
        → Replied gap limit later q sent o
        → Onward gap limit late s.posted sent o
    replied later none q h e r = r
    replied later (some ((code, got), s')) q h e r = inl (
      r.0,
      subst (λ (q : List (List ℕ)). Alive gap limit 0 late (length s'.polls) q s') e
          (Alive-settled gap limit 0 later late _ q s' h r.1),
    )

    decided :
        (start code m : ℕ) (q : List (List ℕ)) (s2 : BootSystem)
        → start ≤ clock + gap
        → Put s.posted sent code q
        → Alive gap limit start (start + gap + timeout + gap) m q s2
        → (fine : Bool) → ((fine ≡ true → code ≡ no_error) × (code ≡ no_error → fine ≡ true))
        → Onward gap limit late s.posted sent (
            (if fine
                then transfer_rounds (suc (length s2.polls)) start sent received size timeout
                else done (code, received))
              s2)
    decided start code m q s2 high (inl (fine, posts)) c true e =
        replied (start + 2 * timeout + 5 * gap)
          (transfer_rounds (suc (length s2.polls)) start sent received size timeout s2) q
          (omega (arith, high)) posts
          (rounds-Replied gap limit start timeout size q sent (omega (arith, high, enough))
            (suc (length s2.polls)) (start + gap + timeout + gap) (length s2.polls) received s2
            (omega arith) (omega arith)
            (record {
              last = c.last;
              not_before = c.not_before;
              not_after = c.not_after;
              steady = c.steady;
              reaches = c.reaches;
              left = omega arith;
              posts = c.posts;
            }))
    decided start code m q s2 high (inl (fine, posts)) c false e = absurd (cc (e.1 fine))
    decided start code m q s2 high (inr (bad, posts)) c true e = absurd (bad (e.0 refl))
    decided start code m q s2 high (inr (bad, posts)) c false e = inr (
      bad,
      subst (λ (q : List (List ℕ)). Alive gap limit 0 late (length s2.polls) q s2) posts
          (Alive-settled gap limit start (start + gap + timeout + gap) late m q s2
            (omega (arith, high)) c),
    )

-- What a transfer leaves: the answer if there is no error, and the packet posted once or, after an
-- error, perhaps not at all.
abbrev pub Transferred : List (List ℕ) → List ℕ → Option ((ℕ × List ℕ) × BootSystem) → Type 0
Transferred q sent none = ⊥
Transferred q sent (some ((code, got), s)) =
    ((s.posted ≡ q ++ posted_bytes sent ∷ []) × (code ≡ no_error → is_answer sent got ≡ true))
    ⊎ ((s.posted ≡ q) × (code ≢ no_error))

-- If the clock of the card goes on by steps of at most `gap` milliseconds, without a wrap-around, until
-- it is more than two timeouts and six such steps later, a transfer through the boot loader's mailbox
-- returns. Without error, the packet was posted once, and what was received is an answer to it, by
-- command, source and identifiers; with an error, it was posted once or not at all.
pub transfer_packet-Transferred :
    (sent received : List ℕ) (size timeout gap clock : ℕ) (s : BootSystem)
    → Steady gap clock s.polls
    → Reaches (clock + 2 * timeout + 6 * gap) s.polls
    → Transferred s.posted sent (transfer_packet sent received size timeout s)
transfer_packet-Transferred sent received size timeout gap clock s steady reaches =
    told (transfer_packet sent received size timeout s) (
      transfer_packet-Onward sent received size timeout gap (clock + 2 * timeout + 6 * gap) clock s
        (omega arith) steady reaches)
  where
    told :
        (o : Option ((ℕ × List ℕ) × BootSystem))
        → Onward gap (clock + 2 * timeout + 6 * gap) (clock + 2 * timeout + 6 * gap) s.posted sent o
        → Transferred s.posted sent o
    told none e = e
    told (some ((code, got), s')) (inl (answer, a)) = inl (a.posts, answer)
    told (some ((code, got), s')) (inr (bad, a)) = inr (a.posts, bad)
