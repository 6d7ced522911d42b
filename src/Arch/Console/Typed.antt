-- ===== src/Arch/Console/Typed.antt =====
-- The loop over the UART on a sequence of keys, each held for some reads, up to one that ends it.
use riscy_os.Prelude.{
  ℕ, zero, suc, ◌-◌, ◌≤◌, ◌<◌, ◌≡◌, refl, ap, ◌∙◌, ◌≢◌, Bool, List, [], ◌∷◌, Ptr, null, length,
  arith,
}
use riscy_os.Kernel.EarlyOutput.Register.{count}
use riscy_os.Kernel.World.{World}
use riscy_os.Kernel.World.Says.{with_calls}
use riscy_os.Arch.Console.{main_loop}
use riscy_os.Arch.Console.Echo.{held, Plain, round-Plain}
use riscy_os.Arch.Console.Answer.{
  Answer, stop_key, last_text, Allowed, Answers, Allowed-with_calls, Answers-after, round-Answers,
}

-- The reads of keys with their numbers of reads, then of the last key `z` for `k` reads, and of `more`.
abbrev pub typed : List (ℕ × ℕ) → ℕ → ℕ → List ℕ → List ℕ
typed [] z k more = held z k more
typed ((c, n) ∷ keys) z k more = held c n (typed keys z k more)

abbrev pub first_key : List (ℕ × ℕ) → ℕ → ℕ
first_key [] z = z
first_key ((c, n) ∷ keys) z = c

-- Every key is plain, another than the next, and held for seven reads.
abbrev pub Typed : List (ℕ × ℕ) → ℕ → Type 0
Typed [] z = Unit {0}
Typed ((c, n) ∷ keys) z = Plain c × (7 ≤ n) × (c ≢ first_key keys z) × Typed keys z

abbrev pub shown_keys : List (ℕ × ℕ) → List ℕ → List ℕ
shown_keys [] last = last
shown_keys ((c, n) ∷ keys) last = c ∷ shown_keys keys last

-- The first key has `n` reads left.
abbrev from : ℕ → List (ℕ × ℕ) → ℕ → ℕ → List ℕ → List ℕ
from n [] z k more = held z n more
from n ((c, _) ∷ keys) z k more = held c n (typed keys z k more)

abbrev first_count : List (ℕ × ℕ) → ℕ → ℕ
first_count [] k = k
first_count ((c, n) ∷ keys) k = n

typed-from :
    (keys : List (ℕ × ℕ)) (z k : ℕ) (more : List ℕ)
    → typed keys z k more ≡ from (first_count keys k) keys z k more
typed-from [] z k more = refl
typed-from ((c, n) ∷ keys) z k more = refl

held-cons : (c n : ℕ) (more : List ℕ) → 1 ≤ n → held c n more ≡ c ∷ held c (n - 1) more
unfolding held
held-cons c zero more h = absurd (omega (arith, h))
held-cons c (suc n) more h = let e : suc n - 1 ≡ n = omega arith in rw e refl

typed-cons :
    (keys : List (ℕ × ℕ)) (z k : ℕ) (more : List ℕ)
    → 1 ≤ first_count keys k
    → typed keys z k more ≡ first_key keys z ∷ from (first_count keys k - 1) keys z k more
typed-cons [] z k more h = held-cons z k more h
typed-cons ((c, n) ∷ keys) z k more h = held-cons c n (typed keys z k more) h

first_count-Typed : (keys : List (ℕ × ℕ)) (z k : ℕ) → Typed keys z → 7 ≤ k → 7 ≤ first_count keys k
first_count-Typed [] z k h many = many
first_count-Typed ((c, n) ∷ keys) z k h many = h.1

module _ (reg_value : Ptr → ℕ) (reboot_ok shutdown_ok : Bool) (p : Ptr) (ne : p ≢ null) (a : Answer)
    (k : ℕ) (more : List ℕ) where
  from-Answers :
      (keys : List (ℕ × ℕ)) (n rounds : ℕ) (w : World)
      → count p w.array ≡ 1
      → Allowed reboot_ok shutdown_ok a w
      → Typed keys (stop_key a)
      → 6 ≤ n
      → 7 ≤ k
      → length keys < rounds
      → Answers reg_value a p (shown_keys keys (stop_key a ∷ last_text a)) more w (
          main_loop reg_value rounds reboot_ok shutdown_ok
            (record w { input = from n keys (stop_key a) k more }))
  from-Answers keys n zero w once allowed h many held_long enough = absurd (omega (arith, enough))
  from-Answers [] n (suc rounds) w once allowed h many held_long enough =
      round-Answers reg_value reboot_ok shutdown_ok p ne rounds n more w once many a allowed
  from-Answers ((c, i) ∷ keys) n (suc rounds) w once allowed (plain, long, other, h) many held_long
        enough =
      let z = stop_key a in
      let seven = first_count-Typed keys z k h held_long in
      let left = first_count keys k - 1 in
      let (calls, hears, e) =
        round-Plain reg_value reboot_ok shutdown_ok p ne rounds w once c n (first_key keys z)
          (from left keys z k more) plain many other in
      Answers-after reg_value reboot_ok shutdown_ok p ne a calls (c ∷ [])
        (shown_keys keys (z ∷ last_text a)) more w _ _ hears
        (rw (typed-cons keys z k more (omega (arith, seven))) e)
        (from-Answers keys left rounds (with_calls w calls) once
          (Allowed-with_calls reg_value reboot_ok shutdown_ok p ne a w calls allowed) h
          (omega (arith, seven)) held_long (omega (arith, enough)))

  -- For a callback, not NULL, that stands once in the table, and keys that are bytes other than NUL
  -- and none of % ! ^ &, each another than the next and read at least seven times, before one of
  -- those four that is: with more rounds than keys the loop ends as the last key asks. % returns, !
  -- aborts, and ^ and &, if their flags are true and their actions found, write the word that
  -- reboots or powers off to the register. The callback hears each key once, in order, and then the
  -- text of the abort, if any; nothing else changes but the reads that are used up.
  pub main_loop-Answers :
      (keys : List (ℕ × ℕ)) (rounds : ℕ) (w : World)
      → count p w.array ≡ 1
      → Allowed reboot_ok shutdown_ok a w
      → Typed keys (stop_key a)
      → 7 ≤ k
      → length keys < rounds
      → w.input ≡ typed keys (stop_key a) k more
      → Answers reg_value a p
          (shown_keys keys (stop_key a ∷ last_text a))
          more
          w
          (main_loop reg_value rounds reboot_ok shutdown_ok w)
  main_loop-Answers keys rounds w once allowed h held_long enough typing =
      let seven = first_count-Typed keys (stop_key a) k h held_long in
      let (calls, left, hears, e) =
        from-Answers keys (first_count keys k) rounds w once allowed h (omega (arith, seven))
          held_long enough in
      (
        calls,
        left,
        hears,
        ap (λ input. main_loop reg_value rounds reboot_ok shutdown_ok (record w { input = input }))
              (typing ∙ typed-from keys (stop_key a) k more)
            ∙ e,
      )
