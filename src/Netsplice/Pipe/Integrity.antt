-- ===== src/Netsplice/Pipe/Integrity.antt =====
-- The bytes of `splicePipe` and what its counters say of them.
use wander.Base.{
  ℕ, ◌+◌, ◌-◌, ◌^◌, ◌≤◌, ◌<◌, ◌≡◌, refl, ◌∙◌, Bool, true, false, List, [], ◌∷◌, ◌++◌, arith, ◌==◌,
  if◌then◌else◌, length, take, drop, append_assoc, length-append, length-take, length-drop,
  take-append-drop,
}
use wander.Base.Bytes.{Bytes}
use wander.Base.Int.{int64, pos, ◌+ℤ◌, ◌-ℤ◌, ltb_ℤ, pos_part}
use wander.Netsplice.Pipe.{
  Err, nil, unexpected_eof, errno, is_nil, Answer, moved, again, failed, World, SplicePipe,
  pipe_buf, Done, Run, done, pending, no_fuel, ◌>>=◌, count, account_read, account_write, at_end,
  read_loop, read_amount, write_loop,
}

abbrev pub bytes_of : World → Bytes
bytes_of w = w.dst ++ (w.pipe ++ w.src)

abbrev pub max_int64 : ℕ
max_int64 = 2 ^ 63 - 1

-- The counters tell the truth: `max` bytes were allowed, of `total` in all.
pub record IsExact (max : ℕ) (s : SplicePipe) (w : World) : Type 0 where
  pub in_pipe : s.inbuf ≡ pos (length w.pipe)
  pub delivered : s.written ≡ pos (length w.dst)
  pub allowed : s.toread +ℤ pos (length w.pipe + length w.dst) ≡ pos max
  pub in_bounds : s.toread ≡ pos (pos_part s.toread)
  pub room : length w.pipe ≤ pipe_buf
  pub int_range : max ≤ max_int64

abbrev pub is_errno : Err → Bool
is_errno (errno e) = true
is_errno _ = false

-- What every call leaves behind.
pub record Kept (max : ℕ) (total : Bytes) (d : Done) : Type 0 where
  pub whole : bytes_of d.world ≡ total
  pub exact : is_errno d.err ≡ false → IsExact max d.sp d.world
  pub at_eof : d.err ≡ unexpected_eof → d.world.src ≡ []

int64_small : (n : ℕ) → n ≤ max_int64 → int64 (pos n) ≡ pos n
unfolding int64
int64_small n h = ground arith

move_in :
    (n : ℕ) (w : World)
    → bytes_of (record w { src = drop n w.src; pipe = w.pipe ++ take n w.src }) ≡ bytes_of w
move_in n w = rw (append_assoc w.pipe (take n w.src) (drop n w.src), take-append-drop n w.src)

pub move_out :
    (n : ℕ) (w : World)
    → bytes_of (record w { pipe = drop n w.pipe; dst = w.dst ++ take n w.pipe }) ≡ bytes_of w
move_out n w = rw (
  append_assoc w.dst (take n w.pipe) (drop n w.pipe ++ w.src),
  ← append_assoc (take n w.pipe) (drop n w.pipe) w.src,
  take-append-drop n w.pipe,
)

account_read_lem :
    (max n : ℕ) (s : SplicePipe) (w : World)
    → IsExact max s w
    → 0 < pos_part s.toread
    → n ≤ pos_part (read_amount s)
    → n ≤ length w.src
    → IsExact max
        (account_read (pos n) s)
        (record w { src = drop n w.src; pipe = w.pipe ++ take n w.src })
unfolding int64 ◌+ℤ◌ ◌-ℤ◌
account_read_lem max n s w x p h k =
    ground (arith, length-append w.pipe (take n w.src), length-take n w.src)

account_write_lem :
    (max n : ℕ) (s : SplicePipe) (w : World)
    → IsExact max s w
    → n ≤ length w.pipe
    → IsExact max
        (account_write (pos n) s)
        (record w { pipe = drop n w.pipe; dst = w.dst ++ take n w.pipe })
unfolding int64 ◌+ℤ◌ ◌-ℤ◌
account_write_lem max n s w x k =
    ground (arith, length-append w.dst (take n w.pipe), length-take n w.pipe, length-drop n w.pipe)

-- What holds of a run that comes to an end.
abbrev pub After : (Done → Type 0) → Run → Type 0
After P (done d) = P d
After P pending = Unit
After P no_fuel = Unit

pub After->>= :
    (P Q : Done → Type 0) (r : Run) (f : Done → Run)
    → After P r
    → ((d : Done) → P d → After Q (f d))
    → After Q (r >>= f)
After->>= P Q (done d) f h k = k d h
After->>= P Q pending f h k = tt
After->>= P Q no_fuel f h k = tt

pub After-both : (P Q : Done → Type 0) (r : Run) → After P r → After Q r → After (λ d. P d × Q d) r
After-both P Q (done d) h k = (h, k)
After-both P Q pending h k = tt
After-both P Q no_fuel h k = tt

pub After-map : (P Q : Done → Type 0) (r : Run) → After P r → ((d : Done) → P d → Q d) → After Q r
After-map P Q (done d) h k = k d h
After-map P Q pending h k = tt
After-map P Q no_fuel h k = tt

pub After-if :
    (P : Done → Type 0) (b : Bool) (x y : Run)
    → (b ≡ true → After P x)
    → (b ≡ false → After P y)
    → After P (if b then x else y)
After-if P true x y h k = h refl
After-if P false x y h k = k refl

pub nil-is_nil : (e : Err) → is_nil e ≡ true → e ≡ nil
nil-is_nil e h = ground arith

pub nil_length : {A : Type 0} (xs : List A) → length xs ≡ 0 → xs ≡ []
nil_length [] h = refl
nil_length (x ∷ xs) h = absurd (omega arith)

abbrev pub HasRoom : Done → Type 0
HasRoom d = is_nil d.err ≡ true → length d.world.pipe < pipe_buf

module _ (max : ℕ) (total : Bytes) where
  abbrev pub Ready : Done → Type 0
  Ready d = Kept max total d × HasRoom d

  pub count_pos :
      (k : ℕ) (s : SplicePipe) (w : World)
      → IsExact max s w
      → 0 < pos_part s.toread
      → length w.pipe < pipe_buf
      → count k (pos_part (read_amount s)) w.src ≡ 0
      → length w.src ≡ 0
  unfolding ◌-ℤ◌
  count_pos k s w x p room h = ground arith

  at_end-Kept :
      (s : SplicePipe) (w : World) (rest : List Answer)
      → bytes_of w ≡ total
      → IsExact max s w
      → w.src ≡ []
      → After (Kept max total) (at_end s w rest)
  at_end-Kept s w rest e x h =
      After-if (Kept max total) (ltb_ℤ s.toread (pos 0)) _ _
        (λ t. absurd (ground (arith, x.in_bounds)))
        (λ _. record { whole = e; exact = λ _. x; at_eof = λ _. h })

  pub read_loop-Kept :
      (answers : List Answer) (can_read : Bool) (s : SplicePipe) (w : World)
      → bytes_of w ≡ total
      → IsExact max s w
      → 0 < pos_part s.toread
      → length w.pipe < pipe_buf
      → After (Kept max total) (read_loop (pos_part (read_amount s)) answers can_read s w)
  unfolding read_loop
  read_loop-Kept [] can_read s w e x p r = tt
  read_loop-Kept (again true ∷ rest) true s w e x p r = record {
    whole = e;
    exact = λ _. x;
    at_eof = λ h. cc;
  }
  read_loop-Kept (again true ∷ rest) false s w e x p r = read_loop-Kept rest true s w e x p r
  read_loop-Kept (again false ∷ rest) true s w e x p r = record {
    whole = e;
    exact = λ _. x;
    at_eof = λ h. cc;
  }
  read_loop-Kept (again false ∷ rest) false s w e x p r = record {
    whole = e;
    exact = λ _. x;
    at_eof = λ h. cc;
  }
  read_loop-Kept (failed a ∷ rest) can_read s w e x p r = record {
    whole = e;
    exact = λ h. cc;
    at_eof = λ h. cc;
  }
  read_loop-Kept (moved k ∷ rest) can_read s w e x p r =
      let n = count k (pos_part (read_amount s)) w.src in
      After-if (Kept max total) (n == 0) _ _
        (λ t. at_end-Kept s w rest e x (nil_length w.src (count_pos k s w x p r (ground arith))))
        (λ _. record {
          whole = move_in n w ∙ e;
          exact = λ _. account_read_lem max n s w x p (omega arith) (omega arith);
          at_eof = λ h. cc;
        })

  pub write_loop-Ready :
      (answers : List Answer) (s : SplicePipe) (w : World)
      → bytes_of w ≡ total
      → IsExact max s w
      → 0 < length w.pipe
      → After Ready (write_loop answers s w)
  unfolding write_loop
  write_loop-Ready [] s w e x p = tt
  write_loop-Ready (again true ∷ rest) s w e x p = write_loop-Ready rest s w e x p
  write_loop-Ready (again false ∷ rest) s w e x p =
      (record { whole = e; exact = λ _. x; at_eof = λ h. cc }, λ h. cc)
  write_loop-Ready (failed a ∷ rest) s w e x p =
      (record { whole = e; exact = λ h. cc; at_eof = λ h. cc }, λ h. cc)
  write_loop-Ready (moved k ∷ rest) s w e x p =
      let n = count k (pos_part s.inbuf) w.pipe in
      (
        record {
          whole = move_out n w ∙ e;
          exact = λ _. account_write_lem max n s w x (omega arith);
          at_eof = λ h. cc;
        },
        λ _. ground (arith, length-drop n w.pipe, x.in_pipe, x.room),
      )
