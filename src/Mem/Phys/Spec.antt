-- ===== src/Mem/Phys/Spec.antt =====
-- The physical memory manager as its clients see it: pages that are in use or free, requests for
-- pages in a row, and their return. An address of 0 stands for no pages, so page 0 stays in use.
use twos.Base.{ℕ, ◌+◌, ◌-◌, ◌/◌, ◌≤◌, ◌<◌, ◌≡◌, ◌⊎◌, ◌==◌, if◌then◌else◌, List, [], ◌∷◌}
use twos.Mem.Page.{page_size}

-- A number of bytes is asked for, or given back from the start of a page.
pub data Command : Type 0 where
  alloc : ℕ → Command
  free : ℕ → ℕ → Command

pub data Reply : Type 0 where
  pages : ℕ → Reply
  nothing : Reply
  done : Reply

-- The pages that a number of bytes takes.
abbrev pub needed : ℕ → ℕ
needed size = (size + page_size - 1) / page_size

abbrev pub AllFree : (ℕ → ℕ) → ℕ → ℕ → Type 0
AllFree used lo n = (p : ℕ) → lo ≤ p → p < lo + n → used p ≡ 0

-- The pages from `lo` on, `n` of them, become `b`, and the others stay as they are.
pub record Becomes (b lo n : ℕ) (used used' : ℕ → ℕ) : Type 0 where
  pub inside : (p : ℕ) → lo ≤ p → p < lo + n → used' p ≡ b
  pub outside : (p : ℕ) → (p < lo) ⊎ (lo + n ≤ p) → used' p ≡ used p

-- One request: any run of free pages below the limit may be given, and none only where there is none.
pub data Step (limit : ℕ) (used used' : ℕ → ℕ) : Command → Reply → Type 0 where
  gives :
      (size lo : ℕ)
      → lo + needed size ≤ limit
      → AllFree used lo (needed size)
      → Becomes 1 lo (needed size) used used'
      → Step limit used used' (alloc size) (pages lo)
  refuses :
      (size : ℕ)
      → ((lo : ℕ) → lo + needed size ≤ limit → ¬ AllFree used lo (needed size))
      → ((p : ℕ) → used' p ≡ used p)
      → Step limit used used' (alloc size) nothing
  frees :
      (lo size : ℕ)
      → Becomes 0 lo (needed size) used used'
      → Step limit used used' (free lo size) done

-- A history of requests.
pub data Run (limit : ℕ) : (ℕ → ℕ) → List Command → List Reply → (ℕ → ℕ) → Type 1 where
  stop : (used : ℕ → ℕ) → Run limit used [] [] used
  step :
      {used used' used'' : ℕ → ℕ} {c : Command} {r : Reply} {cs : List Command} {rs : List Reply}
      → Step limit used used' c r
      → Run limit used' cs rs used''
      → Run limit used (c ∷ cs) (r ∷ rs) used''

-- How a client reads the address that it gets.
abbrev pub reply_to : ℕ → Reply
reply_to addr = if addr == 0 then nothing else pages (addr / page_size)
