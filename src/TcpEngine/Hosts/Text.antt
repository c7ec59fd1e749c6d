-- ===== src/TcpEngine/Hosts/Text.antt =====
-- How the list of hosts is cut into its entries, and an entry at its marks.
use wander.Base.{
  ℕ, ◌≡◌, ◌≢◌, refl, ap, ◌∙◌, List, [], ◌∷◌, ◌++◌, map, append-nil, none, some, arith, All,
}
use wander.Base.Bytes.{Bytes, Lacks}
use wander.TcpEngine.Hosts.{
  first_cut, last_cut, cut_scheme, comma_to_space, squeeze, split_spaces, entries, lower_byte,
}

module _ (b : ℕ) where
  pub first_cut-none : (s : Bytes) → Lacks b s → first_cut b s ≡ none
  unfolding first_cut
  first_cut-none [] h = refl
  first_cut-none (c ∷ s) (hc, h) = ground (arith, first_cut-none s h)

  pub first_cut_at : (s t : Bytes) → Lacks b s → first_cut b (s ++ b ∷ t) ≡ some (s, t)
  unfolding first_cut
  first_cut_at [] t h = ground arith
  first_cut_at (c ∷ s) t (hc, h) = ground (arith, first_cut_at s t h)

  pub last_cut-none : (s : Bytes) → Lacks b s → last_cut b s ≡ none
  unfolding last_cut
  last_cut-none [] h = refl
  last_cut-none (c ∷ s) (hc, h) = ground (arith, last_cut-none s h)

  pub last_cut_at : (s t : Bytes) → Lacks b t → last_cut b (s ++ b ∷ t) ≡ some (s, t)
  unfolding last_cut
  last_cut_at [] t h = ground (arith, last_cut-none t h)
  last_cut_at (c ∷ s) t h = ground (arith, last_cut_at s t h)

pub cut_scheme-Lacks : (s : Bytes) → Lacks b':' s → cut_scheme s ≡ s
unfolding cut_scheme
cut_scheme-Lacks [] h = refl
cut_scheme-Lacks (c ∷ s) (hc, h) = ground (arith, cut_scheme-Lacks s h)

pub cut_scheme_at : (s t : Bytes) → Lacks b':' s → cut_scheme (s ++ b':' ∷ b'/' ∷ b'/' ∷ t) ≡ s
unfolding cut_scheme
cut_scheme_at [] t h = ground arith
cut_scheme_at (c ∷ s) t (hc, h) = ground (arith, cut_scheme_at s t h)

-- No capital letter.
abbrev pub IsLower : Bytes → Type 0
IsLower = All (λ c. lower_byte c ≡ c)

pub map-lower_byte : (s : Bytes) → IsLower s → map lower_byte s ≡ s
map-lower_byte [] h = refl
map-lower_byte (c ∷ s) (hc, h) = cc (hc, map-lower_byte s h)

-- An entry of a list: not empty, and with no mark of the list in it.
abbrev pub IsEntry : Bytes → Type 0
IsEntry e = (e ≢ []) × Lacks b',' e × Lacks b' ' e

-- A comma or a space.
pub data Mark : Type 0 where
  comma space : Mark

abbrev pub mark_byte : Mark → ℕ
mark_byte comma = b','
mark_byte space = b' '

-- What stands between two entries: one or two marks.
pub data Between : Type 0 where
  single : Mark → Between
  double : Mark → Mark → Between

abbrev pub between_bytes : Between → Bytes → Bytes
between_bytes (single m) rest = mark_byte m ∷ rest
between_bytes (double m n) rest = mark_byte m ∷ mark_byte n ∷ rest

-- Entries behind another, each behind its marks.
pub separated : List (Between × Bytes) → Bytes
separated [] = []
separated ((b, e) ∷ es) = between_bytes b (e ++ separated es)

squeeze_cons : (c : ℕ) (s : Bytes) → c ≢ b' ' → squeeze (c ∷ s) ≡ c ∷ squeeze s
unfolding squeeze
squeeze_cons c [] h = refl
squeeze_cons c (d ∷ s) h = ground arith

squeeze_space : (c : ℕ) (s : Bytes) → c ≢ b' ' → squeeze (b' ' ∷ c ∷ s) ≡ b' ' ∷ squeeze (c ∷ s)
unfolding squeeze
squeeze_space c s h = ground arith

-- Reading an entry, in front of any rest.
read_entry :
    (e rest : Bytes)
    → Lacks b',' e
    → Lacks b' ' e
    → squeeze (map comma_to_space (e ++ rest)) ≡ e ++ squeeze (map comma_to_space rest)
read_entry [] rest h k = refl
read_entry (c ∷ e) rest (hc, h) (kc, k) =
    ground (arith, squeeze_cons c (map comma_to_space (e ++ rest)), read_entry e rest h k)

split_entry :
    (e rest : Bytes) → Lacks b' ' e → split_spaces (e ++ b' ' ∷ rest) ≡ e ∷ split_spaces rest
unfolding split_spaces
split_entry [] rest h = ground arith
split_entry (c ∷ e) rest (hc, h) = ground (arith, split_entry e rest h)

split_last : (e : Bytes) → Lacks b' ' e → split_spaces e ≡ e ∷ []
unfolding split_spaces
split_last [] h = refl
split_last (c ∷ e) (hc, h) = ground (arith, split_last e h)

-- One or two marks in front of an entry are one space.
read_between :
    (b : Between) (c : ℕ) (rest : Bytes)
    → c ≢ b','
    → c ≢ b' '
    → squeeze (map comma_to_space (between_bytes b (c ∷ rest)))
      ≡ b' ' ∷ squeeze (map comma_to_space (c ∷ rest))
unfolding squeeze
read_between (single comma) c rest h k = ground (arith, squeeze_space c (map comma_to_space rest))
read_between (single space) c rest h k = ground (arith, squeeze_space c (map comma_to_space rest))
read_between (double comma comma) c rest h k = refl
read_between (double comma space) c rest h k = refl
read_between (double space comma) c rest h k = refl
read_between (double space space) c rest h k = refl

rest_of :
    (b : Between) (e rest : Bytes)
    → IsEntry e
    → squeeze (map comma_to_space (between_bytes b (e ++ rest)))
      ≡ b' ' ∷ (e ++ squeeze (map comma_to_space rest))
rest_of b [] rest (ne, h, k) = absurd (ne refl)
rest_of b (c ∷ e) rest (ne, h, k) =
    read_between b c (e ++ rest) h.0 k.0 ∙ ap (λ s. b' ' ∷ s) (read_entry (c ∷ e) rest h k)

abbrev pub AreEntries : List (Between × Bytes) → Type 0
AreEntries = All (λ p. IsEntry p.1)

split_rest :
    (e : Bytes) (es : List (Between × Bytes))
    → IsEntry e
    → AreEntries es
    → split_spaces (e ++ squeeze (map comma_to_space (separated es))) ≡ e ∷ map (λ p. p.1) es
unfolding separated squeeze
split_rest e [] (ne, h, k) hs = ap split_spaces (append-nil e) ∙ split_last e k
split_rest e ((b, f) ∷ es) (ne, h, k) (hf, hs) =
    ap (λ s. split_spaces (e ++ s)) (rest_of b f (separated es) hf)
    ∙ split_entry e (f ++ squeeze (map comma_to_space (separated es))) k
    ∙ ap (λ ps. e ∷ ps) (split_rest f es hf hs)

-- The entries of a list in which one or two commas or spaces stand between them.
pub entries-separated :
    (e : Bytes) (es : List (Between × Bytes))
    → IsEntry e
    → AreEntries es
    → entries (e ++ separated es) ≡ e ∷ map (λ p. p.1) es
unfolding entries
entries-separated e es h hs =
    ap split_spaces (read_entry e (separated es) h.1 h.2) ∙ split_rest e es h hs
