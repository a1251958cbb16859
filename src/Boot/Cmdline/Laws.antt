-- ===== src/Boot/Cmdline/Laws.antt =====
-- That the parser ends, and what the lookups find.
use twos.Base.{
  ℕ, zero, suc, ◌+◌, ◌<◌, ◌≤◌, ◌≡◌, ◌≢◌, ◌↔◌, ==_iff, get_or, ◌-◌, ◌*◌, ◌∙◌, ◌⊎◌, refl, ap, inl,
  inr, ◌==◌, ◌&&◌, not, ltb, ltb→lt, Bool-cases, if◌then◌else◌, Bool, true, false, List, [], ◌∷◌,
  ◌++◌, length, Memory, arith,
}
use native.Mathlib.Decide.{ℕ_discrete}
use native.Mathlib.Nat.{lt_irrefl}
use twos.Acpi.{string_at}
use twos.Kstd.Compare.{Sign, nil, minus, plus, strcmp}
use twos.Kstd.Compare.Laws.{AllBytes, strcmp_iff}
use twos.Boot.Cmdline.{
  struct_byte, arg_text, is_equal, Cmdline, no_args, Parsed, parsed, overflow, out_of_fuel,
  read_value, add_arg, parse_loop, cmdline_parse, is_arg, find_arg, get_arg_idx, argidx_none,
  cmdline_hasarg, cmdline_getarg, cmdline_no_arg,
}

-- The text is read to its end with at most sixteen arguments, or a buffer overflows.
abbrev pub IsParsed : Parsed → Type 0
IsParsed r = (r ≡ overflow) ⊎ ((c : Cmdline) × (r ≡ parsed c) × (c.num_args ≤ 16))

read_value-le :
    (fuel idx stag_len : ℕ) (text : Memory) → idx ≤ (read_value fuel idx stag_len text).1
unfolding read_value
read_value-le zero idx stag_len text = omega arith
read_value-le (suc fuel) idx stag_len text =
    ground (arith, read_value-le fuel (idx + 1) stag_len text)

IsParsed-if :
    (b : Bool) (r r' : Parsed)
    → (b ≡ true → IsParsed r)
    → (b ≡ false → IsParsed r')
    → IsParsed (if b then r else r')
IsParsed-if true r r' h h' = h refl
IsParsed-if false r r' h h' = h' refl

parse_loop-IsParsed :
    (fuel idx : ℕ) (buf : List ℕ) (stag_len : ℕ) (text : Memory) (c : Cmdline)
    → stag_len ≤ idx + fuel
    → c.num_args ≤ 16
    → IsParsed (parse_loop fuel idx buf stag_len text c)
unfolding parse_loop add_arg
parse_loop-IsParsed zero idx buf stag_len text c h hc =
    IsParsed-if (ltb idx stag_len) out_of_fuel (parsed c)
      (λ e. elim (lt_irrefl 0 (omega (arith, h, ltb→lt idx stag_len e))) [ ])
      (λ e. inr (c, refl, hc))
parse_loop-IsParsed (suc fuel) idx buf stag_len text c h hc =
    let value = read_value stag_len (idx + 1) stag_len text in
    let behind = if text (value.1) == b' ' then value.1 + 1 else value.1 in
    let far : idx + 1 ≤ behind = ground (arith, read_value-le stag_len (idx + 1) stag_len text) in
    let c' = add_arg buf (value.0) c in
    IsParsed-if (not (ltb idx stag_len)) (parsed c) _ (λ e. inr (c, refl, hc))
      (λ e.
        IsParsed-if (text idx == b'=') _ _
          (λ e1.
            IsParsed-if (ltb (length buf) 64 && ltb (length (value.0)) 32 && ltb c.num_args 16) _
              overflow
              (λ e2.
                parse_loop-IsParsed fuel (behind + 1) (text behind ∷ []) stag_len text c'
                  (omega (arith, h, far)) (ground (arith, e2)))
              (λ e2. inl refl))
          (λ e1.
            IsParsed-if (ltb (length buf) 64) _ overflow
              (λ e2.
                parse_loop-IsParsed fuel (idx + 1) (buf ++ text idx ∷ []) stag_len text c
                  (omega (arith, h)) hc)
              (λ e2. inl refl)))

-- `cmdline_parse` comes to the end of every text, with at most sixteen arguments, unless a buffer
-- of it overflows.
pub cmdline_parse-IsParsed : (stag_len : ℕ) (text : Memory) → IsParsed (cmdline_parse stag_len text)
unfolding cmdline_parse
cmdline_parse-IsParsed stag_len text =
    parse_loop-IsParsed stag_len 0 [] stag_len text no_args (omega arith) (omega arith)

-- A text in memory is made of nonzero bytes.
string_at-AllBytes :
    (n p : ℕ) (mem : Memory) → ((b : ℕ) → mem b < 256) → AllBytes (string_at n p mem)
unfolding string_at
string_at-AllBytes zero p mem h = tt
string_at-AllBytes (suc n) p mem h =
    let rest = string_at-AllBytes n (p + 1) mem h in
    elim (ℕ_discrete (mem p) 0) [
      | yes e ↦ (let over : (mem p == 0) ≡ true = ground (arith, e) in rw over tt)
      | no ne ↦
          (let on : (mem p == 0) ≡ false = ground (arith, ne) in
            rw on (omega (arith, ne), h p, rest))
    ]

get_or-string_at : (n p : ℕ) (mem : Memory) → 0 < n → get_or (string_at n p mem) 0 0 ≡ mem p
unfolding string_at
get_or-string_at zero p mem h = elim h [ ]
get_or-string_at (suc n) p mem h = ground arith

is_equal-nil : (s : Sign) → is_equal s ≡ true → s ≡ nil
is_equal-nil nil e = refl
is_equal-nil minus e = absurd (cc e)
is_equal-nil plus e = absurd (cc e)

and_right : (a b : Bool) → (a && b) ≡ true → b ≡ true
and_right false b e = absurd (cc e)
and_right true b e = e

and_both : (a b : Bool) → a ≡ true → b ≡ true → (a && b) ≡ true
and_both a b e f = rw (e, f) refl

-- The first argument of that name from `lo` on, or `ARGIDX_NONE` where there is none.
abbrev pub IsFirstArg : List ℕ → Cmdline → ℕ → ℕ → ℕ → Type 0
IsFirstArg arg c lo hi r =
    ((lo ≤ r)
      × (r < hi)
      × (is_arg arg c r ≡ true)
      × ((j : ℕ) → lo ≤ j → j < r → is_arg arg c j ≡ false))
    ⊎ ((r ≡ argidx_none) × ((j : ℕ) → lo ≤ j → j < hi → is_arg arg c j ≡ false))

find_arg-IsFirstArg :
    (left lo hi : ℕ) (arg : List ℕ) (c : Cmdline)
    → lo + left ≡ hi
    → IsFirstArg arg c lo hi (find_arg left lo arg c)
unfolding find_arg
find_arg-IsFirstArg zero lo hi arg c e =
    inr (refl, λ j p q. elim (lt_irrefl 0 (omega (arith, e, p, q))) [ ])
find_arg-IsFirstArg (suc left) lo hi arg c e = elim (Bool-cases (is_arg arg c lo)) [
  | inl t ↦ rw t (
      inl (omega arith, omega (arith, e), t, λ j p q. elim (lt_irrefl 0 (omega (arith, p, q))) [ ]))
  | inr t ↦ rw t (later t (find_arg-IsFirstArg left (lo + 1) hi arg c (omega (arith, e))))
]
  where
    before :
        (bound : ℕ)
        → is_arg arg c lo ≡ false
        → ((j : ℕ) → lo + 1 ≤ j → j < bound → is_arg arg c j ≡ false)
        → (j : ℕ) → lo ≤ j
        → j < bound
        → is_arg arg c j ≡ false
    before bound t f j p q = elim (ℕ_discrete j lo) [
      | yes same ↦ (ap (is_arg arg c) same ∙ t)
      | no ne ↦ f j (omega (arith, p, ne)) q
    ]

    later :
        {r : ℕ}
        → is_arg arg c lo ≡ false
        → IsFirstArg arg c (lo + 1) hi r
        → IsFirstArg arg c lo hi r
    later t (inl (p, q, w, f)) = inl (omega (arith, p), q, w, before _ t f)
    later t (inr (z, f)) = inr (z, before hi t f)

struct_byte-lt : (c : Cmdline) → ((b : ℕ) → c.args b < 256) → (b : ℕ) → struct_byte c b < 256
struct_byte-lt c h b = ground (arith, h b)

struct_byte-row : (c : Cmdline) (b : ℕ) → b < 256 → struct_byte c b ≡ c.args b
struct_byte-row c b h = ground arith

-- The tests of the loop on an argument, below the sixteenth, come to whether it has the name.
is_arg_iff :
    (arg : List ℕ) (c : Cmdline) (i : ℕ)
    → AllBytes arg
    → ((b : ℕ) → c.args b < 256)
    → i < 16
    → (is_arg arg c i ≡ true) ↔ (arg ≡ arg_text c i)
is_arg_iff arg c i ha hc h =
    let equal =
      strcmp_iff arg (arg_text c i) ha
        (string_at-AllBytes (328 - 16 * i) (16 * i) (struct_byte c) (struct_byte-lt c hc)) in
    let first =
      get_or-string_at (328 - 16 * i) (16 * i) (struct_byte c) (omega (arith, h))
      ∙ struct_byte-row c (16 * i) (omega (arith, h)) in
    (
      (λ e. equal.0 (is_equal-nil (strcmp arg (arg_text c i)) (and_right _ _ e))),
      (λ e.
          and_both _ _
            ((==_iff (get_or arg 0 0) (c.args (16 * i))).1 (ap (λ t. get_or t 0 0) e ∙ first))
            (ap is_equal (equal.1 e))),
    )

-- With at most sixteen arguments, in bytes, and for a name of nonzero bytes: `cmdline_hasarg` holds
-- exactly if an argument's text is the name, and then `cmdline_getarg` gives the value of the first that
-- has it; otherwise it gives `CMDLINE_NO_ARG`.
pub cmdline_getarg_lem :
    (arg : List ℕ) (c : Cmdline)
    → AllBytes arg
    → ((b : ℕ) → c.args b < 256)
    → c.num_args ≤ 16
    → ((cmdline_hasarg arg c ≡ true)
        × ((k : ℕ) × (k < c.num_args)
            × (arg ≡ arg_text c k)
            × ((j : ℕ) → j < k → arg ≢ arg_text c j)
            × (cmdline_getarg arg c ≡ c.vals k)))
      ⊎ ((cmdline_hasarg arg c ≡ false)
          × ((j : ℕ) → j < c.num_args → arg ≢ arg_text c j)
          × (cmdline_getarg arg c ≡ cmdline_no_arg))
unfolding cmdline_hasarg cmdline_getarg get_arg_idx
cmdline_getarg_lem arg c ha hc h =
    let other : (j : ℕ) → j < 16 → is_arg arg c j ≡ false → arg ≢ arg_text c j =
      λ j l f e. absurd (cc (f, (is_arg_iff arg c j ha hc l).1 e)) in
    elim (find_arg-IsFirstArg c.num_args 0 c.num_args arg c (omega arith)) [
      | inl (p, q, w, f) ↦
          (let there : (find_arg c.num_args 0 arg c == argidx_none) ≡ false =
              ground (arith, q, h) in
            inl (
              rw there refl,
              (
                find_arg c.num_args 0 arg c,
                q,
                (is_arg_iff arg c _ ha hc (omega (arith, q, h))).0 w,
                λ j l. other j (omega (arith, l, q, h)) (f j (omega arith) l),
                rw there refl,
              ),
            ))
      | inr (z, f) ↦
          inr (rw z refl, λ j l. other j (omega (arith, l, h)) (f j (omega arith) l), rw z refl)
    ]
