-- ===== src/Libc/Printf/Body.antt =====
-- The body of the loop of `formatted_print` against the description of one character.
use riscy_os.Prelude.{
  ℕ, ◌+◌, ◌%◌, ◌≤◌, ◌≡◌, refl, ◌≢◌, Bool, false, Option, none, some, List, [], ◌∷◌, ◌++◌, inl, inr,
  ltb, ◌==◌, length, arith, Bool-cases, ap, sym, ◌∙◌, ne→==, length-append, ltb→le,
}
use mathlib.Core.List.{append-nil, append_assoc}
use riscy_os.Libc.Printf.{
  Arg, int, str, ptr, State, buf_len, char_string, put, pointer_print, flush, print_char,
  print_string, print_pointer, specifier, append_char, body,
}
use mathlib.Core.Path.{subst}
use riscy_os.Libc.Printf.Pointer.{pointer_print-length}
use riscy_os.Libc.Printf.Description.{
  char_text, string_text, pointer_text, directive, Read, plain, read, Visible,
}

abbrev pub flat : List (List ℕ) → List ℕ
flat [] = []
flat (xs ∷ xss) = xs ++ flat xss

pub flat-snoc : (xss : List (List ℕ)) (xs : List ℕ) → flat (xss ++ xs ∷ []) ≡ flat xss ++ xs
flat-snoc [] xs = append-nil xs
flat-snoc (ys ∷ xss) xs = rw (flat-snoc xss xs, append_assoc)

-- What has been put, with what waits in the buffer.
abbrev pub text_so_far : State → List ℕ
text_so_far s = flat s.out ++ s.buf

abbrev pub counted : State → ℕ
counted s = s.num_chars + length s.buf

-- `s'` is `s` with `text` printed.
pub record Prints (text : List ℕ) (visible : Type 0) (s s' : State) : Type 0 where
  pub texts : text_so_far s' ≡ text_so_far s ++ text
  pub counts : visible → counted s' ≡ counted s + length text

pub nil_of_length : (xs : List ℕ) → length xs ≤ 0 → xs ≡ []
nil_of_length [] h = refl
nil_of_length (x ∷ xs) h = absurd (omega arith)

pub flush-buf : (s : State) → (flush s).buf ≡ []
unfolding flush
flush-buf s = elim (Bool-cases (ltb 0 (length s.buf))) [
  | inl some_left ↦ rw some_left
  | inr no_left ↦ rw no_left (nil_of_length s.buf (ltb→le 0 (length s.buf) no_left))
]

pub flush-Prints : (s : State) → Prints [] (Unit {0}) s (flush s)
unfolding flush
flush-Prints s = elim (Bool-cases (ltb 0 (length s.buf))) [
  | inl some_left ↦ rw some_left (record {
    texts = append-nil (flat (s.out ++ s.buf ∷ [])) ∙ flat-snoc s.out s.buf ∙ sym (append-nil _);
    counts = λ _. omega arith;
  })
  | inr no_left ↦ rw no_left (record { texts = sym (append-nil _); counts = λ _. omega arith })
]

pub put-Prints :
    (text : List ℕ) (n : ℕ) (visible : Type 0) (s : State)
    → s.buf ≡ []
    → (visible → n ≡ length text)
    → Prints text visible s (put text n s)
put-Prints text n visible s empty_buf len = record {
  texts = rw (empty_buf, append-nil, append-nil) (flat-snoc s.out text);
  counts = λ v. omega (arith, len v);
}

pub Prints-trans :
    (text more : List ℕ) {visible : Type 0} {s s' s'' : State}
    → Prints text visible s s'
    → Prints more visible s' s''
    → Prints (text ++ more) visible s s''
Prints-trans text more {s} p q = record {
  texts = q.texts ∙ ap (λ t. t ++ more) p.texts ∙ append_assoc (text_so_far s) text more;
  counts = λ v. omega (arith, p.counts v, q.counts v, length-append text more);
}

pub Prints-weaken :
    {text : List ℕ} (visible : Type 0) {s s' : State}
    → Prints text (Unit {0}) s s'
    → Prints text visible s s'
Prints-weaken visible p = record { texts = p.texts; counts = λ _. p.counts tt }

pub append_char-Prints : (c : ℕ) (s : State) → Prints (c ∷ []) (Unit {0}) s (append_char c s)
unfolding append_char
append_char-Prints c s =
    let s' : State = record s { buf = s.buf ++ c ∷ [] } in
    let added : Prints (c ∷ []) (Unit {0}) s s' = record {
      texts = sym (append_assoc (flat s.out) s.buf (c ∷ []));
      counts = λ _. omega (arith, length-append s.buf (c ∷ []));
    } in
    elim (Bool-cases (length s'.buf == buf_len)) [
      | inl is_full ↦ rw is_full (Prints-trans (c ∷ []) [] added (flush-Prints s'))
      | inr room ↦ rw room added
    ]

-- The loop's body agrees with such a reading.
pub data Agrees (s : State) : Read → Option State → Type 0 where
  stuck : Agrees s none none
  reads :
      {text : List ℕ} {escaped : Bool} {args : List Arg} {s' : State}
      → s'.escaped ≡ escaped
      → s'.args ≡ args
      → (Visible s.args → Visible args)
      → Prints text (Visible s.args) s s'
      → Agrees s (some (text, escaped, args)) (some s')

put-Agrees :
    (text : List ℕ) (n : ℕ) (args : List Arg) (s : State)
    → s.buf ≡ []
    → s.escaped ≡ false
    → (Visible s.args → (n ≡ length text) × Visible args)
    → Agrees s (some (text, false, args)) (some (put text n (record s { args = args })))
put-Agrees text n args s e f v =
    let p = put-Prints text n (Visible s.args) s e (λ h. (v h).0) in
    reads f refl (λ h. (v h).1) (record { texts = p.texts; counts = p.counts })

char_string-length : (c : ℕ) → c ≢ 0 → 1 ≡ length (char_string c)
char_string-length c ne = rw (ne→== c 0 ne)

module _ (s : State) (e : s.buf ≡ []) (f : s.escaped ≡ false) where
  print_char-Agrees :
      (args : List Arg) → s.args ≡ args → Agrees s (plain (char_text args)) (print_char args s)
  unfolding print_char
  print_char-Agrees [] a = stuck
  print_char-Agrees (int c ∷ args) a =
      put-Agrees (char_string (c % 256)) 1 args s e f
        λ v. let w = subst Visible a v in (char_string-length (c % 256) w.0, w.1)
  print_char-Agrees (str t ∷ args) a = stuck
  print_char-Agrees (ptr p ∷ args) a = stuck

  print_string-Agrees :
      (args : List Arg) → s.args ≡ args → Agrees s (plain (string_text args)) (print_string args s)
  unfolding print_string
  print_string-Agrees [] a = stuck
  print_string-Agrees (int c ∷ args) a = stuck
  print_string-Agrees (str t ∷ args) a =
      put-Agrees t (length t) args s e f λ v. (refl, subst Visible a v)
  print_string-Agrees (ptr p ∷ args) a = stuck

  print_pointer-Agrees :
      (args : List Arg)
      → s.args ≡ args
      → Agrees s (plain (pointer_text args)) (print_pointer args s)
  unfolding print_pointer
  print_pointer-Agrees [] a = stuck
  print_pointer-Agrees (int c ∷ args) a = stuck
  print_pointer-Agrees (str t ∷ args) a = stuck
  print_pointer-Agrees (ptr p ∷ args) a =
      put-Agrees (pointer_print p).0 (pointer_print p).1 args s e f
        λ v. (pointer_print-length p, subst Visible a v)

abbrev pub unescaped : State → State
unescaped s = record s { escaped = false }

specifier-Agrees :
    (c : ℕ) (s : State)
    → c ≢ 0
    → s.buf ≡ []
    → Agrees (unescaped s) (plain (directive c s.args)) (specifier c s)
unfolding specifier directive
specifier-Agrees c s ne e = rw (ne→== c 0 ne) (elim (Bool-cases (c == b'%')) [
  | inl h ↦ rw h (put-Agrees (b'%' ∷ []) 1 s.args (unescaped s) e refl λ v. (refl, v))
  | inr h ↦ rw h (elim (Bool-cases (c == b'c')) [
    | inl h ↦ rw h (print_char-Agrees (unescaped s) e refl s.args refl)
    | inr h ↦ rw h (elim (Bool-cases (c == b's')) [
      | inl h ↦ rw h (print_string-Agrees (unescaped s) e refl s.args refl)
      | inr h ↦ rw h (elim (Bool-cases (c == b'p')) [
        | inl h ↦ rw h (print_pointer-Agrees (unescaped s) e refl s.args refl)
        | inr h ↦ rw h (put-Agrees (b'%' ∷ c ∷ []) 2 s.args (unescaped s) e refl λ v. (refl, v))
      ])
    ])
  ])
])

-- What follows a flush in a state that differs in its mode alone agrees from the state before it.
pub Agrees-flush :
    {r : Read} {o : Option State} (s : State)
    → Agrees (unescaped (flush s)) r o
    → (flush s).args ≡ s.args
    → Agrees s r o
Agrees-flush s stuck a = stuck
Agrees-flush s (reads {text} e g v p) a =
    let q : Prints text (Visible s.args) (flush s) _ = record {
      texts = p.texts;
      counts = λ h. p.counts (subst Visible (sym a) h);
    } in
    reads e g (λ h. v (subst Visible (sym a) h))
      (Prints-trans [] text (Prints-weaken (Visible s.args) (flush-Prints s)) q)

pub flush-args : (s : State) → (flush s).args ≡ s.args
unfolding flush
flush-args s = ground arith

pub append_char-keeps :
    (c : ℕ) (s : State)
    → ((append_char c s).args ≡ s.args) × ((append_char c s).escaped ≡ s.escaped)
unfolding append_char flush
append_char-keeps c s = ground arith

pub body-Agrees : (c : ℕ) (s : State) → c ≢ 0 → Agrees s (read s.escaped c s.args) (body c s)
unfolding body
body-Agrees c s ne = elim (Bool-cases s.escaped) [
  | inl esc ↦
      let flushed = specifier-Agrees c (flush s) ne (flush-buf s) in
      simp esc (
        Agrees-flush s
          (subst (λ a. Agrees (unescaped (flush s)) (plain (directive c a)) (specifier c (flush s)))
            (flush-args s) flushed)
          (flush-args s))
  | inr plain_mode ↦
      simp (plain_mode, ne→== c 0 ne)
        (elim (Bool-cases (c == b'%')) [
          | inl h ↦ rw h (
              reads refl refl (λ v. v)
                (record { texts = sym (append-nil _); counts = λ _. omega arith }))
          | inr h ↦ rw h (
              reads ((append_char-keeps c s).1 ∙ plain_mode) (append_char-keeps c s).0 (λ v. v)
                (Prints-weaken (Visible s.args) (append_char-Prints c s)))
        ])
]
