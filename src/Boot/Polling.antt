-- ===== src/Boot/Polling.antt =====
-- A wait of the boot loader's mailbox ends.
use nadrvlinux.Prelude.{
  ℕ, suc, ◌+◌, ◌≤◌, ◌<◌, ◌^◌, sub32, Bool, true, false, Option, none, some, List, [], ◌∷◌, length,
  leb, ◌==◌, ==_iff, if◌then◌else◌, Bool-cases, ◌≡◌, refl, ◌∙◌, ◌⊎◌, inl, inr, arith,
}
use nadrvlinux.Boot.{
  BootDpm, Poll, BootSystem, B, bit_state, milliseconds, ◌>>=◌, poll_rounds, resumed,
  wait_for_bit_state_poll,
}

-- The clock does not go back or wrap around, and between two readings at most `gap` pass.
abbrev pub Steady : (gap clock : ℕ) → List Poll → Type 0
Steady gap clock [] = Unit {0}
Steady gap clock (p ∷ ps) =
    (clock ≤ p.clock) × (p.clock ≤ clock + gap) × (p.clock < 2 ^ 32) × Steady gap p.clock ps

-- The clock comes to be above `limit`.
abbrev pub Reaches : (limit : ℕ) → List Poll → Type 0
Reaches limit [] = ⊥
Reaches limit (p ∷ ps) = (limit < p.clock) ⊎ Reaches limit ps

-- What remains of the polls when the clock is at `clock`, and what was posted.
pub record Alive (gap limit floor clock polls_left : ℕ) (posted : List (List ℕ)) (s : BootSystem)
    : Type 0 where
  pub last : ℕ
  pub not_before : floor ≤ last
  pub not_after : last ≤ clock
  pub steady : Steady gap last s.polls
  pub reaches : Reaches limit s.polls
  pub left : length s.polls ≤ polls_left
  pub posts : s.posted ≡ posted

pub Alive-later :
    (gap limit floor clock later n m : ℕ) (q : List (List ℕ)) (s : BootSystem)
    → clock ≤ later
    → n ≤ m
    → Alive gap limit floor clock n q s
    → Alive gap limit floor later m q s
Alive-later gap limit floor clock later n m q s h k a = record {
  last = a.last;
  not_before = a.not_before;
  not_after = omega (arith, a.not_after, h);
  steady = a.steady;
  reaches = a.reaches;
  left = omega (arith, a.left, k);
  posts = a.posts;
}

-- The bounds that matter to what comes next.
pub Alive-settled :
    (gap limit floor clock later n : ℕ) (q : List (List ℕ)) (s : BootSystem)
    → clock ≤ later
    → Alive gap limit floor clock n q s
    → Alive gap limit 0 later (length s.polls) q s
Alive-settled gap limit floor clock later n q s h a = record {
  last = a.last;
  not_before = omega arith;
  not_after = omega (arith, a.not_after, h);
  steady = a.steady;
  reaches = a.reaches;
  left = omega arith;
  posts = a.posts;
}

-- A poll that does not reach the limit leaves it to the others.
Reaches-tail :
    (limit : ℕ) (p : Poll) (ps : List Poll)
    → p.clock ≤ limit
    → Reaches limit (p ∷ ps)
    → Reaches limit ps
Reaches-tail limit p ps h (inl above) = absurd (omega (arith, above, h))
Reaches-tail limit p ps h (inr later) = later

-- A wait that was told how it ended.
abbrev pub Polled :
    (gap limit floor clock n mask state : ℕ) → List (List ℕ) → Option (Bool × BootSystem) → Type 0
Polled gap limit floor clock n mask state q none = ⊥
Polled gap limit floor clock n mask state q (some (ok, s)) =
    (ok ≡ true → bit_state s.dpm mask ≡ state) × Alive gap limit floor clock n q s

module _ (mask state start timeout gap limit floor : ℕ) (s : BootSystem) (from : floor ≤ start)
    (enough : start + timeout + gap ≤ limit) where
  poll_rounds-Polled :
      (last : ℕ) (d : BootDpm) (ps : List Poll)
      → start ≤ last
      → last ≤ start + timeout
      → Steady gap last ps
      → Reaches limit ps
      → Polled gap limit floor
          (start + timeout + gap)
          (length ps)
          mask
          state
          s.posted
          (resumed s (poll_rounds mask state start timeout d ps))
  unfolding poll_rounds
  poll_rounds-Polled last d [] h k steady reaches = absurd reaches
  poll_rounds-Polled last d (p ∷ ps) h k (low, high, small, steady) reaches =
      elim (Bool-cases (bit_state d mask == state)) [
        | inl hit ↦ rw hit (
          λ _. (==_iff (bit_state d mask) state).0 hit,
          record {
            last = last;
            not_before = omega (arith, h, from);
            not_after = omega (arith, k);
            steady = (low, high, small, steady);
            reaches = reaches_limit;
            left = omega arith;
            posts = refl;
          },
        )
        | inr miss ↦ elim (Bool-cases (leb (sub32 p.clock start) timeout)) [
          | inl early ↦
              rw (miss, early)
                (let soon : p.clock ≤ start + timeout = ground (arith, early, low, h, small) in
                  Polled-more (resumed s (poll_rounds mask state start timeout (p.act d) ps))
                    (length ps)
                    (poll_rounds-Polled p.clock (p.act d) ps (omega (arith, h, low)) soon steady
                      (Reaches-tail limit p ps (omega (arith, soon, enough)) reaches_limit)))
          | inr late ↦
              rw (miss, late)
                (
                  λ e. absurd cc,
                  record {
                    last = p.clock;
                    not_before = omega (arith, h, low, from);
                    not_after = omega (arith, k, high);
                    steady = steady;
                    reaches =
                        Reaches-tail limit p ps (omega (arith, k, high, enough)) reaches_limit;
                    left = omega arith;
                    posts = refl;
                  },
                )
        ]
      ]
    where
      reaches_limit : Reaches limit (p ∷ ps)
      reaches_limit = reaches

      Polled-more :
          (o : Option (Bool × BootSystem)) (n : ℕ)
          → Polled gap limit floor (start + timeout + gap) n mask state s.posted o
          → Polled gap limit floor (start + timeout + gap) (suc n) mask state s.posted o
      Polled-more none n h = h
      Polled-more (some (ok, s')) n h = (
        h.0,
        Alive-later gap limit floor (start + timeout + gap) (start + timeout + gap) n (suc n)
            s.posted s' (omega arith) (omega arith) h.1,
      )

-- Reading the clock of a card whose polls go on.
pub milliseconds-Then :
    {A : Type 0} (k : ℕ → B A) (P : Option (A × BootSystem) → Type 0) (gap limit floor clock n : ℕ)
    (q : List (List ℕ)) (s : BootSystem)
    → clock + gap ≤ limit
    → Alive gap limit floor clock n q s
    → ((now m : ℕ) (s' : BootSystem)
        → floor ≤ now
        → now ≤ clock + gap
        → now < 2 ^ 32
        → suc m ≤ n
        → Alive gap limit now now m q s'
        → P (k now s'))
    → P ((milliseconds >>= k) s)
milliseconds-Then {A} k P gap limit floor clock n q s h a f = read s.polls a.steady a.reaches a.left
  where
    read :
        (ps : List Poll)
        → Steady gap a.last ps
        → Reaches limit ps
        → length ps ≤ n
        → P
            (elim (elim ps as (λ x. Option (ℕ × BootSystem)) [
              | [] ↦ none
              | p ∷ ps ↦ some (p.clock, record s { dpm = p.act s.dpm; polls = ps })
            ])
              as (λ x. Option (A × BootSystem)) [ none ↦ none | some (a, s') ↦ k a s' ])
    read [] steady reaches left = absurd reaches
    read (p ∷ ps) (low, high, small, steady) reaches left =
        f p.clock (length ps) (record s { dpm = p.act s.dpm; polls = ps })
          (omega (arith, low, a.not_before)) (omega (arith, high, a.not_after)) small
          (omega (arith, left))
          (record {
            last = p.clock;
            not_before = omega arith;
            not_after = omega arith;
            steady = steady;
            reaches = Reaches-tail limit p ps (omega (arith, high, a.not_after, h)) reaches;
            left = omega arith;
            posts = a.posts;
          })

-- What follows a wait for a bit.
pub wait-Then :
    {A : Type 0} (mask state timeout : ℕ) (k : Bool → B A) (P : Option (A × BootSystem) → Type 0)
    (gap limit floor clock n : ℕ) (q : List (List ℕ)) (s : BootSystem)
    → clock + gap + timeout + gap ≤ limit
    → Alive gap limit floor clock n q s
    → ((ok : Bool) (s' : BootSystem)
        → (ok ≡ true → bit_state s'.dpm mask ≡ state)
        → Alive gap limit floor (clock + gap + timeout + gap) n q s'
        → P (k ok s'))
    → P ((wait_for_bit_state_poll mask state timeout >>= k) s)
unfolding wait_for_bit_state_poll
wait-Then {A} mask state timeout k P gap limit floor clock n q s h a f =
    decided (bit_state s.dpm mask == state) (timeout == 0) (==_iff (bit_state s.dpm mask) state).0
  where
    now : Alive gap limit floor (clock + gap + timeout + gap) n q s
    now =
        Alive-later gap limit floor clock (clock + gap + timeout + gap) n n q s (omega arith)
          (omega arith) a

    ended : Option (Bool × BootSystem) → Option (A × BootSystem)
    ended o = elim o as (λ x. Option (A × BootSystem)) [ none ↦ none | some x ↦ k x.0 x.1 ]

    told :
        (o : Option (Bool × BootSystem)) (start m : ℕ) (s' : BootSystem)
        → start ≤ clock + gap
        → suc m ≤ n
        → s'.posted ≡ q
        → length s'.polls ≤ m
        → Polled gap limit floor (start + timeout + gap) (length s'.polls) mask state s'.posted o
        → P (ended o)
    told none start m s' high shorter posts left p = absurd p
    told (some (ok, s2)) start m s' high shorter posts left p =
        let b = p.1 in
        f ok s2 p.0 (record {
          last = b.last;
          not_before = b.not_before;
          not_after = omega (arith, b.not_after, high);
          steady = b.steady;
          reaches = b.reaches;
          left = omega (arith, b.left, left, shorter);
          posts = b.posts ∙ posts;
        })

    polled : Option (Bool × BootSystem)
    polled =
        (milliseconds >>= λ start s'.
        resumed s' (poll_rounds mask state start timeout s'.dpm s'.polls))
          s

    decided :
        (b c : Bool)
        → (b ≡ true → bit_state s.dpm mask ≡ state)
        → P (ended (if b then some (true, s) else if c then some (false, s) else polled))
    decided true c e = f true s (λ _. e refl) now
    decided false true e = f false s (λ e. absurd cc) now
    decided false false e =
        milliseconds-Then
          (λ start s'. resumed s' (poll_rounds mask state start timeout s'.dpm s'.polls))
          (λ o. P (ended o)) gap limit floor clock n q s (omega (arith, h)) a
          (λ start m s' low high small shorter b.
            told (resumed s' (poll_rounds mask state start timeout s'.dpm s'.polls)) start m s' high
              shorter b.posts b.left
              (poll_rounds-Polled mask state start timeout gap limit floor s' low
                (omega (arith, h, high)) b.last s'.dpm s'.polls b.not_before
                (omega (arith, b.not_after)) b.steady b.reaches))
