-- ===== src/Kernel/Fdt/Token/Walk.antt =====
-- Walks over the tokens: what a loop may assume at its head, and where it lands.
use riscy_os.Prelude.{ℕ, suc, ◌+◌, ◌≤◌, ◌<◌, ◌≡◌, ◌⊎◌, Ptr, null, arith, Gives}
use riscy_os.Kernel.Endian.{Machine}
use riscy_os.Kernel.Fdt.Token.{struct_end, token_at, fdt_next_token}
use riscy_os.Kernel.Fdt.Token.Progress.{InBlock, IsBlob, fdt_next_token-Gives}

module _ (m : Machine) (fuel fdt top : ℕ) where
  -- A walk with `rounds` left is at NULL or at a token of the block that the rounds suffice for.
  abbrev pub Enough : ℕ → Ptr → Type 0
  Enough rounds token =
      (1 ≤ rounds) × ((token ≡ null) ⊎ (InBlock m fdt token × (struct_end m fdt < token + rounds)))

  -- NULL, or at least `low`.
  abbrev pub After : ℕ → Ptr → Type 0
  After low token = (token ≡ null) ⊎ (low ≤ token)

  -- NULL, or a token of the given kind in the block that is at least `low`.
  abbrev pub Lands : ℕ → ℕ → Ptr → Type 0
  Lands kind low token =
      (token ≡ null) ⊎ ((low ≤ token) × InBlock m fdt token × (token_at m token ≡ kind))

  abbrev pub Stepped : ℕ → Ptr → Ptr → Type 0
  Stepped rounds token next = Enough rounds next × After (token + 4) next

  module _ (blob : IsBlob m fuel fdt top) where
    pub advance :
        (rounds : ℕ) (token : Ptr)
        → InBlock m fdt token
        → struct_end m fdt < token + suc rounds
        → Gives (Stepped rounds token) (fdt_next_token m fuel fdt token)
    advance rounds token inside enough =
        let (next, run, lands) = fdt_next_token-Gives m fuel fdt top blob token inside in
        (next, run, (ground arith, ground arith))

    -- The first step of a walk from a token: the fuel of the walk suffices for what follows.
    pub advance_first :
        (token : Ptr)
        → InBlock m fdt token
        → Gives (Stepped fuel token) (fdt_next_token m fuel fdt token)
    advance_first token inside =
        let (next, run, lands) = fdt_next_token-Gives m fuel fdt top blob token inside in
        let e = blob.enough in let t = blob.ends in (next, run, (ground arith, ground arith))
