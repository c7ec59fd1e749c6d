-- ===== src/QpsServer/Listen/Formats.antt =====
-- Which address comes of which text: a host and a port, one of them, and a host in brackets.
use wander.Base.{
  ℕ, suc, ◌+◌, ◌-◌, ◌≡◌, ◌≢◌, refl, ◌∙◌, sym, ap, true, false, [], ◌∷◌, ◌++◌, arith, length, take,
  drop, ◌==◌, if◌then◌else◌, none, some, append_assoc, length-append, All-append, All-split,
}
use wander.Base.Bytes.{Bytes, Lacks, codes, slice, drop-append, take-append, index_byte}
use wander.QpsServer.Listen.{
  last, contains, is_positive, starts_bracket, split_host_port, complete, joined,
  net_listen_string_format,
}
use wander.QpsServer.Listen.Laws.{last-none, last_at}

contains-none : (s : Bytes) (b : ℕ) → Lacks b s → contains s b ≡ false
contains-none [] b h = refl
contains-none (c ∷ s) b h = ground (arith, contains-none s b)

contains_at : (s t : Bytes) (b : ℕ) → contains (s ++ (b ∷ t)) b ≡ true
contains_at [] t b = ground arith
contains_at (c ∷ s) t b = ground (arith, contains_at s t b)

index_byte_at : (s t : Bytes) (b : ℕ) → Lacks b s → index_byte (s ++ (b ∷ t)) b ≡ some (length s)
unfolding index_byte
index_byte_at [] t b h = ground arith
index_byte_at (c ∷ s) t b h = ground (arith, index_byte_at s t b)

-- No colon and no bracket.
abbrev pub IsPlain : Bytes → Type 0
IsPlain s = Lacks b':' s × Lacks b'[' s × Lacks b']' s

Lacks-join : (h p : Bytes) (b : ℕ) → b ≢ b':' → Lacks b h → Lacks b p → Lacks b (h ++ (b':' ∷ p))
Lacks-join h p b ne x y = All-append _ h (b':' ∷ p) x (λ e. ne (sym e), y)

not_bracket : (h p : Bytes) → Lacks b'[' h → starts_bracket (h ++ (b':' ∷ p)) ≡ false
not_bracket [] p x = refl
not_bracket (c ∷ h) p x = ground arith

drop_one : (h p : Bytes) (c : ℕ) → drop (length h + 1) (h ++ (c ∷ p)) ≡ p
drop_one h p c =
    ap (λ n. drop n (h ++ (c ∷ p))) (omega (arith, length-append h (c ∷ [])))
    ∙ (ap (λ s. drop (length (h ++ c ∷ [])) s) (sym (append_assoc h (c ∷ []) p))
        ∙ drop-append (h ++ c ∷ []) p)

split_plain :
    (h p : Bytes) → IsPlain h → IsPlain p → split_host_port (h ++ (b':' ∷ p)) ≡ some (h, p)
unfolding split_host_port
split_plain h p (hc, ho, he) (pc, po, pe) =
    rw
      (
        last_at h p b':' pc,
        not_bracket h p ho,
        take-append h (b':' ∷ p),
        contains-none h b':' hc,
        contains-none (h ++ (b':' ∷ p)) b'[' (Lacks-join h p b'[' (omega arith) ho po),
        contains-none (h ++ (b':' ∷ p)) b']' (Lacks-join h p b']' (omega arith) he pe),
        drop_one h p b':',
      )
      refl

-- A host with a colon and no brackets is refused.
split_colons :
    (a b p : Bytes)
    → Lacks b'[' a
    → Lacks b':' p
    → split_host_port ((a ++ (b':' ∷ b)) ++ (b':' ∷ p)) ≡ none
unfolding split_host_port
split_colons a b p x y =
    rw
      (
        last_at (a ++ (b':' ∷ b)) p b':' y,
        ap starts_bracket (append_assoc a (b':' ∷ b) (b':' ∷ p))
            ∙ not_bracket a (b ++ (b':' ∷ p)) x,
        take-append (a ++ (b':' ∷ b)) (b':' ∷ p),
        contains_at a b b':',
      )
      refl

complete_whole :
    (h p : Bytes) → IsPlain h → IsPlain p → complete (h ++ (b':' ∷ p)) ≡ h ++ (b':' ∷ p)
unfolding complete
complete_whole h p x y =
    rw
      (
        last-none (h ++ (b':' ∷ p)) b']' (Lacks-join h p b']' (omega arith) x.2 y.2),
        contains_at h p b':',
      )
      refl

complete_none :
    (s : Bytes) → IsPlain s → complete s ≡ (if is_positive s then b':' ∷ s else s ++ codes ":8080")
unfolding complete
complete_none s (c, o, e) = rw (last-none s b']' e, contains-none s b':' c) refl

formats :
    (s a b : Bytes)
    → complete s ≡ a ++ (b':' ∷ b)
    → IsPlain a
    → IsPlain b
    → net_listen_string_format s ≡ some (a ++ (b':' ∷ b))
unfolding net_listen_string_format
formats s a b e u v = ap (λ t. joined (split_host_port t)) e ∙ ap joined (split_plain a b u v)

-- A host and a port with one colon between them, and no other colon and no bracket, are left as
-- they are. A positive number, and a text that is no positive number, both without a colon or a
-- bracket, are completed to a port at all addresses and to a host at port 8080.
pub net_listen-IsPlain :
    (h p : Bytes)
    → IsPlain h
    → IsPlain p
    → (net_listen_string_format (h ++ (b':' ∷ p)) ≡ some (h ++ (b':' ∷ p)))
      × (is_positive p ≡ true → net_listen_string_format p ≡ some (b':' ∷ p))
      × (is_positive h ≡ false → net_listen_string_format h ≡ some (h ++ codes ":8080"))
net_listen-IsPlain h p x y = (
  formats (h ++ (b':' ∷ p)) h p (complete_whole h p x y) x y,
  λ e. formats p [] p (complete_none p y ∙ rw e refl) (tt, tt, tt) y,
  λ e. formats h h (codes "8080") (complete_none h x ∙ rw e refl) x (omega arith),
)

-- The text "[h]:p".
abbrev pub bracket : Bytes → Bytes → Bytes
bracket h p = b'[' ∷ (h ++ (b']' ∷ (b':' ∷ p)))

module _ (h p : Bytes) (ho : Lacks b'[' h) (he : Lacks b']' h) (plain : IsPlain p) where
  complete-bracket : complete (bracket h p) ≡ bracket h p
  unfolding complete
  complete-bracket =
      rw
        (
          last_at (b'[' ∷ h) (b':' ∷ p) b']' ((omega arith), plain.2),
          drop-append (b'[' ∷ h) (b']' ∷ (b':' ∷ p)),
        )
        refl

  colon_at : last (bracket h p) b':' ≡ some (length h + 2)
  colon_at =
      ap (λ s. last (b'[' ∷ s) b':') (sym (append_assoc h (b']' ∷ []) (b':' ∷ p)))
      ∙ (last_at (b'[' ∷ (h ++ b']' ∷ [])) p b':' plain.0
          ∙ ap (λ n. some n) (omega (arith, length-append h (b']' ∷ []))))

  two_parts : bracket h p ≡ (b'[' ∷ (h ++ b']' ∷ [])) ++ (b':' ∷ p)
  two_parts = ap (λ s. b'[' ∷ s) (sym (append_assoc h (b']' ∷ []) (b':' ∷ p)))

  behind_host : (n : ℕ) → n ≡ length h + 2 → drop n (bracket h p) ≡ b':' ∷ p
  behind_host n e =
      ap (λ s. drop n s) two_parts
      ∙ (ap (λ k. drop k ((b'[' ∷ (h ++ b']' ∷ [])) ++ (b':' ∷ p)))
            {y = length (b'[' ∷ (h ++ b']' ∷ []))} (omega (arith, length-append h (b']' ∷ [])))
          ∙ drop-append (b'[' ∷ (h ++ b']' ∷ [])) (b':' ∷ p))

  port_at : drop (length h + 2 + 1) (bracket h p) ≡ p
  port_at =
      ap (λ s. drop (length h + 2 + 1) s) two_parts
      ∙ (ap (λ k. drop k ((b'[' ∷ (h ++ b']' ∷ [])) ++ (b':' ∷ p)))
            (omega (arith, length-append h (b']' ∷ [])))
          ∙ drop_one (b'[' ∷ (h ++ b']' ∷ [])) p b':')

  host_at : slice (bracket h p) 1 (suc (length h)) ≡ h
  host_at =
      ap (λ n. take n (h ++ (b']' ∷ (b':' ∷ p)))) (all_of (length h))
      ∙ take-append h (b']' ∷ (b':' ∷ p))
    where
      all_of : (n : ℕ) → suc n - 1 ≡ n
      all_of n = omega arith

  no_open : contains (h ++ (b']' ∷ (b':' ∷ p))) b'[' ≡ false
  no_open =
      contains-none (h ++ (b']' ∷ (b':' ∷ p))) b'['
        (All-append _ h (b']' ∷ (b':' ∷ p)) ho (omega arith, (omega arith, plain.1)))

  end_at : (suc (length h) + 1 == length h + 2) ≡ true
  end_at = ground arith

  split-bracket : split_host_port (bracket h p) ≡ some (h, p)
  unfolding split_host_port
  split-bracket =
      rw
        (
          colon_at,
          index_byte_at (b'[' ∷ h) (b':' ∷ p) b']' (omega arith, he),
          end_at,
          host_at,
          no_open,
          behind_host (suc (length h) + 1) (omega arith),
          contains-none (b':' ∷ p) b']' (omega arith, plain.2),
          port_at,
        )
        refl

  net_listen-bracket : net_listen_string_format (bracket h p) ≡ some (h ++ (b':' ∷ p))
  unfolding net_listen_string_format
  net_listen-bracket =
      ap (λ t. joined (split_host_port t)) complete-bracket ∙ ap joined split-bracket

-- A host in brackets loses them: for a host with a colon, such as an IPv6 address, the address that
-- comes out is refused by the very function that took the one that went in.
pub brackets_lost :
    (a b p : Bytes)
    → Lacks b'[' (a ++ (b':' ∷ b))
    → Lacks b']' (a ++ (b':' ∷ b))
    → IsPlain p
    → (split_host_port (bracket (a ++ (b':' ∷ b)) p) ≡ some (a ++ (b':' ∷ b), p))
      × (out : Bytes) × (net_listen_string_format (bracket (a ++ (b':' ∷ b)) p) ≡ some out)
      × (split_host_port out ≡ none)
brackets_lost a b p o e plain = (
  split-bracket (a ++ (b':' ∷ b)) p o e plain,
  (a ++ (b':' ∷ b)) ++ (b':' ∷ p),
  net_listen-bracket (a ++ (b':' ∷ b)) p o e plain,
  split_colons a b p (All-split _ a (b':' ∷ b) o).0 plain.0,
)
