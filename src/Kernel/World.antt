-- ===== src/Kernel/World.antt =====
-- The state of the running kernel and programs on it: `printk`, `abort` of libc/src/stdlib/abort.c,
-- and the calls of the other components, which see only their part of the state.
-- `output` is the list of the calls of the callbacks. `input` lists what the reads of the UART's
-- register give, one by one.
pub mod Safe
pub mod Says
use riscy_os.Prelude.{
  ℕ, zero, suc, List, [], ◌∷◌, ◌++◌, Ptr, ◌==◌, if◌then◌else◌, add64, Run, ok, no_return, undefined,
}
use riscy_os.Kernel.Endian.{Machine}
use riscy_os.Kernel.BootMem.FreeList.{Store, Cmd}
use riscy_os.Kernel.Printk.{codes, printf}
use riscy_os.Libc.Printf.{Arg}
use riscy_os.Drivers.Syscon.{Action}

-- `reboot` and `shutdown` are `reboot_action` and `shutdown_action` of drivers/syscon/syscon.c.
pub record World : Type 0 where
  pub array : List Ptr
  pub store : Store
  pub reboot : Action
  pub shutdown : Action
  pub input : List ℕ
  pub output : List (Ptr × ℕ)

-- How a program ends: it returns; it calls `abort`; an assertion of its own fails; it writes the
-- word that reboots or powers off to a register; or it reads the UART for ever. `stuck` stands for
-- a component that does not return, and `crashed` for one that is undefined.
pub data End (A : Type 0) : Type 0 where
  done : A → World → End A
  panics asserted : World → End A
  resets : Ptr → ℕ → World → End A
  waits : World → End A
  stuck crashed : End A

abbrev pub Prog : Type 0 → Type 0
Prog A = World → End A

unfoldable pub pure : {A : Type 0} → A → Prog A
pure a w = done a w

abbrev pub and_then : {A B : Type 0} → End A → (A → Prog B) → End B
and_then (done a w) f = f a w
and_then (panics w) f = panics w
and_then (asserted w) f = asserted w
and_then (resets p v w) f = resets p v w
and_then (waits w) f = waits w
and_then stuck f = stuck
and_then crashed f = crashed

infixl 5 ◌>>=◌ ◌>>◌
unfoldable pub ◌>>=◌ : {A B : Type 0} → Prog A → (A → Prog B) → Prog B
(c >>= f) w = and_then (c w) f

unfoldable pub ◌>>◌ : {A B : Type 0} → Prog A → Prog B → Prog B
c >> d = c >>= λ _. d

-- A loop whose fuel ran out.
unfoldable pub stops : {A : Type 0} → Prog A
stops w = stuck

-- A call that reads no state.
unfoldable pub lift : {A : Type 0} → Run A → Prog A
lift (ok a) w = done a w
lift no_return w = stuck
lift undefined w = crashed

-- A call into the boot allocator.
abbrev pub stored : {A : Type 0} → World → Run (A × Store) → End A
stored w (ok (a, s)) = done a (record w { store = s })
stored w no_return = stuck
stored w undefined = crashed

unfoldable pub on_store : {A : Type 0} → Cmd A → Prog A
on_store c w = stored w (c w.store)

abbrev pub called : World → Run (ℕ × List (Ptr × ℕ)) → End (Unit {0})
called w (ok (n, calls)) = done tt (record w { output = w.output ++ calls })
called w no_return = stuck
called w undefined = crashed

-- The format is a string literal, whose terminator is written out.
unfoldable pub printk : List ℕ → List Arg → Prog (Unit {0})
printk fmt args w = called w (printf w.array (fmt ++ 0 ∷ []) args)

abbrev pub panic_text : List ℕ
panic_text = codes "KERNEL PANIC\n"

unfoldable pub panicked : {A : Type 0} → Prog A
panicked w = panics w

unfoldable pub abort : {A : Type 0} → Prog A
abort = printk panic_text [] >> panicked

-- The failure of an `assert`, which calls `abort`.
unfoldable pub assert_fails : {A : Type 0} → Prog A
assert_fails = printk panic_text [] >>= λ _ w. asserted w

-- The characters of a string in memory, for `%s`.
unfoldable pub text_at : Machine → ℕ → Ptr → Run (List ℕ)
text_at m zero p = no_return
text_at m (suc fuel) p =
    let rest = text_at m fuel (add64 p 1) in
    if m.byte p == 0
    then ok []
    else elim rest [ ok s ↦ ok (m.byte p ∷ s) | no_return ↦ no_return | undefined ↦ undefined ]
