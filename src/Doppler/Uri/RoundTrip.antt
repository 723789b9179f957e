-- ===== src/Doppler/Uri/RoundTrip.antt =====
-- `parse_uri` of src/secrets/doppler.py against the printing of a reference.
use Prim.Native.Char.{char, code}
use Prim.Native.String.append.{nil, cons}
use text.Mathlib.TextEquality.{Char-path}
use text.Mathlib.TextLemmas.{append-nil}
use litellm_control_plane.Common.{
  String, Bool, true, false, none, some, ◌≡◌, refl, ◌==◌, not, eqb, arith, if◌then◌else◌, eq_iff,
  Bool-cases, inl, inr, ◌∙◌, ap, sym, subst, Option, ◌||◌, ◌↔◌,
}
use litellm_control_plane.Common.Text.{concat, strip_prefix}
use litellm_control_plane.World.{World, returned, value_error, or_else, pure, raise}
use litellm_control_plane.Doppler.Uri.{
  segment, Reference, match_uri, parse_uri, match_segments, match_project, match_name, match_last,
  match_config, match_middle,
}

-- Without a slash.
abbrev IsPlain : String → Type 0
IsPlain String.[] = Unit
IsPlain (String.◌∷◌ c s) = (eqb (code c) 47 ≡ false) × IsPlain s

-- A text that a group takes.
pub record IsSegment (s : String) : Type 0 where
  pub plain : IsPlain s
  pub filled : (s == "") ≡ false

-- f"doppler://{project}/{config}/{secret_name}"
abbrev pub uri_of : Reference → String
uri_of r =
    concat "doppler://" (concat r.project (concat "/" (concat r.config (concat "/" r.secret_name))))

segment-slash : (t : String) → segment (concat "/" t) ≡ ("", concat "/" t)
unfolding segment
segment-slash t = let e = cons (char 47 tt) "" t in rw e refl

segment-plain : (s t : String) → IsPlain s → segment (concat s (concat "/" t)) ≡ (s, concat "/" t)
unfolding segment
segment-plain String.[] t h = rw (nil (concat "/" t)) (segment-slash t)
segment-plain (String.◌∷◌ c s) t h =
    let e = cons c s (concat "/" t) in
    let k = segment-plain s t h.1 in rw (e, segment, k) (rw h.0 refl)

segment-end : (s : String) → IsPlain s → segment s ≡ (s, "")
unfolding segment
segment-end String.[] h = refl
segment-end (String.◌∷◌ c s) h = let k = segment-end s h.1 in rw k (rw h.0 refl)

strip_prefix-concat : (p t : String) → strip_prefix p (concat p t) ≡ some t
unfolding strip_prefix
strip_prefix-concat String.[] t = rw (nil t) refl
strip_prefix-concat (String.◌∷◌ c p) t =
    let k = strip_prefix-concat p t in rw (cons c p t, strip_prefix, k) (ground arith)

match_uri-uri_of :
    (r : Reference)
    → IsSegment r.project
    → IsSegment r.config
    → IsSegment r.secret_name
    → match_uri (uri_of r) ≡ some r
unfolding match_uri
match_uri-uri_of r p c n =
    let last = concat "/" r.secret_name in
    let rest = concat r.config last in
    rw (strip_prefix-concat "doppler://" (concat r.project (concat "/" rest))) (
      rw (segment-plain r.project rest p.plain) (
        rw (p.filled, strip_prefix-concat "/" rest)
          (rw (segment-plain r.config r.secret_name c.plain) (
            rw (c.filled, strip_prefix-concat "/" r.secret_name)
              (rw (segment-end r.secret_name n.plain) (rw n.filled refl))))))

segment-joins : (s : String) → concat (segment s).0 (segment s).1 ≡ s
unfolding segment
segment-joins String.[] = nil ""
segment-joins (String.◌∷◌ c s) = elim (Bool-cases (eqb (code c) 47)) [
  | inl yes_slash ↦ rw yes_slash (nil (String.◌∷◌ c s))
  | inr plain ↦ rw plain (cons c (segment s).0 (segment s).1 ∙ ap (String.◌∷◌ c) (segment-joins s))
]

segment-IsPlain : (s : String) → IsPlain (segment s).0
unfolding segment
segment-IsPlain String.[] = tt
segment-IsPlain (String.◌∷◌ c s) = elim (Bool-cases (eqb (code c) 47)) [
  | inl yes_slash ↦ rw yes_slash tt
  | inr plain ↦ rw plain (plain, segment-IsPlain s)
]

some_injective : {A : Type 0} {a b : A} → some a ≡ some b → a ≡ b
some_injective h = cc

strip_prefix_sound : (p t u : String) → strip_prefix p t ≡ some u → t ≡ concat p u
unfolding strip_prefix
strip_prefix_sound String.[] t u h = rw (nil u) (some_injective h)
strip_prefix_sound (String.◌∷◌ c p) String.[] u h = cc
strip_prefix_sound (String.◌∷◌ c p) (String.◌∷◌ d t) u h =
    elim (Bool-cases (eqb (code c) (code d))) [
      | inl same ↦
          let e = Char-path c d (ground arith) in
          let k = strip_prefix_sound p t u (ground arith) in rw (cons c p u, e, k) refl
      | inr other ↦ ground arith
    ]

-- `u` prints `r`, whose parts are segments.
pub record Prints (r : Reference) (u : String) : Type 0 where
  pub printed : u ≡ uri_of r
  pub project_IsSegment : IsSegment r.project
  pub config_IsSegment : IsSegment r.config
  pub name_IsSegment : IsSegment r.secret_name

segment-IsSegment : (s : String) → ((segment s).0 == "") ≡ false → IsSegment (segment s).0
segment-IsSegment s h = record { plain = segment-IsPlain s; filled = h }

last_segment : (s : String) → (segment s).1 ≡ "" → (segment s).0 ≡ s
last_segment s e =
    sym (append-nil (segment s).0) ∙ ap (concat (segment s).0) (sym e) ∙ segment-joins s

passed :
    (b : Bool) {o : Option Reference} {r : Reference}
    → (if b then none else o) ≡ some r
    → (b ≡ false) × (o ≡ some r)
passed true h = cc
passed false h = (refl, h)

match_name_sound :
    (project config s : String) (r : Reference)
    → match_name project config (segment s) ≡ some r
    → (record { project = project; config = config; secret_name = s } ≡ r) × IsSegment s
match_name_sound project config s r h =
    let (tests, k) = passed ((segment s).0 == "" || not ((segment s).1 == "")) h in
    let e = last_segment s ((eq_iff (segment s).1 "").0 (ground arith)) in
    (rw (← e) (some_injective k), subst IsSegment e (segment-IsSegment s (ground arith)))

match_last_sound :
    (project config : String) (o : Option String) (r : Reference)
    → match_last project config o ≡ some r
    → (name : String) × (o ≡ some name)
      × (record { project = project; config = config; secret_name = name } ≡ r)
      × IsSegment name
match_last_sound project config none r h = cc
match_last_sound project config (some name) r h =
    let k = match_name_sound project config name r h in (name, refl, k.0, k.1)

match_config_sound :
    (project s : String) (r : Reference)
    → match_config project (segment s) ≡ some r
    → (s ≡ concat r.config (concat "/" r.secret_name))
      × (project ≡ r.project)
      × IsSegment r.config
      × IsSegment r.secret_name
match_config_sound project s r h =
    let (filled, k) = passed ((segment s).0 == "") h in
    let (name, found, e, n) =
      match_last_sound project (segment s).0 (strip_prefix "/" (segment s).1) r k in
    let t = strip_prefix_sound "/" (segment s).1 name found in
    let j = sym (segment-joins s) ∙ ap (concat (segment s).0) t in
    let config : (segment s).0 ≡ r.config = ap (λ x. x.config) e in
    let last : name ≡ r.secret_name = ap (λ x. x.secret_name) e in
    (
      j
          ∙ ap (λ c. concat c (concat "/" name)) config
          ∙ ap (λ n. concat r.config (concat "/" n)) last,
      ap (λ x. x.project) e,
      subst IsSegment config (segment-IsSegment s filled),
      subst IsSegment last n,
    )

match_middle_sound :
    (project : String) (o : Option String) (r : Reference)
    → match_middle project o ≡ some r
    → (text : String) × (o ≡ some text)
      × (text ≡ concat r.config (concat "/" r.secret_name))
      × (project ≡ r.project)
      × IsSegment r.config
      × IsSegment r.secret_name
match_middle_sound project none r h = cc
match_middle_sound project (some text) r h =
    let (e, p, c, n) = match_config_sound project text r h in (text, refl, e, p, c, n)

match_project_sound :
    (s : String) (r : Reference)
    → match_project (segment s) ≡ some r
    → (s ≡ concat r.project (concat "/" (concat r.config (concat "/" r.secret_name))))
      × IsSegment r.project
      × IsSegment r.config
      × IsSegment r.secret_name
match_project_sound s r h =
    let (filled, k) = passed ((segment s).0 == "") h in
    let (text, found, e, p, c, n) =
      match_middle_sound (segment s).0 (strip_prefix "/" (segment s).1) r k in
    let t = strip_prefix_sound "/" (segment s).1 text found in
    let j = sym (segment-joins s) ∙ ap (concat (segment s).0) (t ∙ ap (concat "/") e) in
    (
      j ∙ ap (λ q. concat q (concat "/" (concat r.config (concat "/" r.secret_name)))) p,
      subst IsSegment p (segment-IsSegment s filled),
      c,
      n,
    )

match_segments_sound :
    (u : String) (o : Option String) (r : Reference)
    → strip_prefix "doppler://" u ≡ o
    → match_segments o ≡ some r
    → Prints r u
match_segments_sound u none r e h = cc
match_segments_sound u (some s) r e h =
    let (k, p, c, n) = match_project_sound s r h in
    record {
      printed = strip_prefix_sound "doppler://" u s e ∙ ap (concat "doppler://") k;
      project_IsSegment = p;
      config_IsSegment = c;
      name_IsSegment = n;
    }

match_uri-Prints : (u : String) (r : Reference) → (match_uri u ≡ some r) ↔ Prints r u
unfolding match_uri
match_uri-Prints u r = (
  match_segments_sound u (strip_prefix "doppler://" u) r refl,
  λ p. rw p.printed (match_uri-uri_of r p.project_IsSegment p.config_IsSegment p.name_IsSegment),
)

found_or_raised :
    (o : Option Reference) (r : Reference) (w : World)
    → (or_else o (raise (value_error "Invalid Doppler secret URI")) pure w ≡ (returned r, w))
      ↔ (o ≡ some r)
unfolding or_else raise pure
found_or_raised none r w = (λ h. cc, λ h. cc)
found_or_raised (some q) r w = (λ h. cc, λ h. cc)

-- A reference is read from exactly the text that prints it: from each whose three parts are not
-- empty and have no slash, and from no other.
pub parse_uri-Prints :
    (u : String) (r : Reference) (w : World) → (parse_uri u w ≡ (returned r, w)) ↔ Prints r u
unfolding parse_uri
parse_uri-Prints u r w =
    let (reads, gives) = found_or_raised (match_uri u) r w in
    let (sound, complete) = match_uri-Prints u r in (λ h. sound (reads h), λ p. gives (complete p))
