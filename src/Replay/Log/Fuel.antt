-- ===== src/Replay/Log/Fuel.antt =====
-- pkg/replay/recovery.go: the loop of `replayWAL` ends.
use tieredcache.Base.{
  ℕ, zero, suc, ◌≤◌, ◌<◌, ◌≡◌, refl, [], ◌∷◌, Option, some, Bytes, length, take, drop, arith,
  length-drop, ◌∙◌, sym,
}
use tieredcache.Replay.Entry.{Codec}
use tieredcache.Replay.Frame.{be64_value}
use tieredcache.Replay.Log.{Found, Round, stop, next, round, replay_loop, replay_wal}

length-take : (n : ℕ) (s : Bytes) → n ≤ length (take n s) → n ≤ length s
length-take zero s h = omega arith
length-take (suc n) [] h = absurd (omega arith)
length-take (suc n) (b ∷ s) h = omega (arith, length-take n s (omega arith))

abbrev Shortens : ℕ → Round → Type 0
Shortens n (stop r) = Unit
Shortens n (next rest r) = length rest < n

module _ (codec : Codec) (checkpoint : ℕ) where
  -- A round that goes on leaves fewer bytes.
  round-Shortens :
      (rest : Bytes) (r : Found) → Shortens (length rest) (round codec checkpoint rest r)
  unfolding round
  round-Shortens rest r = ground (
    arith,
    length-take 8 rest,
    length-drop 8 rest,
    length-drop (be64_value (take 8 rest)) (drop 8 rest),
  )

  abbrev Ends : Option Found → Type 0
  Ends o = (r' : Found) × (o ≡ some r')

  Ends-round :
      (fuel n : ℕ) (x : Round)
      → Shortens n x
      → ((rest : Bytes) (r : Found)
          → length rest < n
          → Ends (replay_loop codec checkpoint fuel rest r))
      → Ends (elim x as (λ _. Option Found) [
        | stop r' ↦ some r'
        | next rest' r' ↦ replay_loop codec checkpoint fuel rest' r'
      ])
  Ends-round fuel n (stop r') k again = (r', refl)
  Ends-round fuel n (next rest' r') k again = again rest' r' k

  -- With more fuel than there are bytes the loop ends.
  pub replay_loop_total :
      (fuel : ℕ) (rest : Bytes) (r : Found)
      → length rest < fuel
      → (r' : Found) × (replay_loop codec checkpoint fuel rest r ≡ some r')
  unfolding replay_loop
  replay_loop_total zero rest r h = absurd (omega arith)
  replay_loop_total (suc fuel) rest r h =
      Ends-round fuel (length rest) (round codec checkpoint rest r) (round-Shortens rest r)
        (λ rest' r' lt. replay_loop_total fuel rest' r' (omega arith))

  -- The scan of any file whatever ends: one more round than the file has bytes is enough fuel.
  pub replay_wal_total :
      (file : Bytes) (r : Found) → (r' : Found) × (replay_wal codec checkpoint file r ≡ some r')
  unfolding replay_wal
  replay_wal_total file r = replay_loop_total (suc (length file)) file r (omega arith)

  More-round :
      (f g : ℕ) (x : Round) (y : Found)
      → elim x as (λ _. Option Found) [
        | stop r' ↦ some r'
        | next rest' r' ↦ replay_loop codec checkpoint f rest' r'
      ]
        ≡ some y
      → ((rest : Bytes) (r : Found)
          → replay_loop codec checkpoint f rest r ≡ some y
          → replay_loop codec checkpoint g rest r ≡ some y)
      → elim x as (λ _. Option Found) [
        | stop r' ↦ some r'
        | next rest' r' ↦ replay_loop codec checkpoint g rest' r'
      ]
        ≡ some y
  More-round f g (stop r') y e again = e
  More-round f g (next rest' r') y e again = again rest' r' e

  -- More fuel changes no result.
  replay_loop_more :
      (f g : ℕ) (rest : Bytes) (r y : Found)
      → f ≤ g
      → replay_loop codec checkpoint f rest r ≡ some y
      → replay_loop codec checkpoint g rest r ≡ some y
  unfolding replay_loop
  replay_loop_more zero g rest r y h e = cc
  replay_loop_more (suc f) zero rest r y h e = absurd (omega arith)
  replay_loop_more (suc f) (suc g) rest r y h e =
      More-round f g (round codec checkpoint rest r) y e
        (λ rest' r' e'. replay_loop_more f g rest' r' y (omega arith) e')

  pub replay_loop-next :
      (fuel : ℕ) (rest rest' : Bytes) (r r' : Found)
      → round codec checkpoint rest r ≡ next rest' r'
      → replay_loop codec checkpoint (suc fuel) rest r ≡ replay_loop codec checkpoint fuel rest' r'
  unfolding replay_loop
  replay_loop-next fuel rest rest' r r' e = rw (e, replay_loop)

  pub replay_loop-stop :
      (fuel : ℕ) (rest : Bytes) (r r' : Found)
      → round codec checkpoint rest r ≡ stop r'
      → replay_loop codec checkpoint (suc fuel) rest r ≡ some r'
  unfolding replay_loop
  replay_loop-stop fuel rest r r' e = rw (e, replay_loop)

  -- Any two amounts of fuel above the number of bytes give the same result.
  pub replay_loop_enough :
      (f g : ℕ) (rest : Bytes) (r : Found)
      → length rest < f
      → length rest < g
      → replay_loop codec checkpoint f rest r ≡ replay_loop codec checkpoint g rest r
  replay_loop_enough f g rest r hf hg =
      let n = suc (length rest) in
      let (y, e) = replay_loop_total n rest r (omega arith) in
      replay_loop_more n f rest r y (omega arith) e
      ∙ sym (replay_loop_more n g rest r y (omega arith) e)
