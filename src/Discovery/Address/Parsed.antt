-- ===== src/Discovery/Address/Parsed.antt =====
-- What sd_parse_ip_and_port finds in a key.
use mw_race_service_mesh_c.Base.{
  ℕ, suc, ◌+◌, ◌≡◌, refl, sym, ap, ap₂, ◌∙◌, subst, false, none, some, List, [], ◌∷◌, ◌++◌,
  append_assoc, append-nil, arith, ◌==◌, ◌<◌, true, lt→ltb, length, get_or, set, drop, All,
  length-append,
}
use mw_race_service_mesh_c.Base.Segments.{get_or-append_at, set-append_at, drop-append_at}
use mw_race_service_mesh_c.Base.Int.{pos}
use mw_race_service_mesh_c.Base.CString.{
  atoi, c_string, is_int, IsDigit, digits_value, atoi-digits, c_string-append,
}
use mw_race_service_mesh_c.Discovery.Address.{
  Address, has_port, copy_ip, scan, cut_port, parse_ip_and_port,
}

-- A byte that the scan passes over.
abbrev pub IsPlain : ℕ → Type 0
IsPlain c = ((c == 58) ≡ false) × ((c == 47) ≡ false)

-- A byte of an IP address in a key.
abbrev pub IsIpByte : ℕ → Type 0
IsIpByte c = ((c == 0) ≡ false) × IsPlain c

scan-plain :
    (i : ℕ) (src : List ℕ) (a : Address)
    → IsPlain (get_or src (suc i) 0)
    → (i == 0) ≡ false
    → scan (suc i) src a ≡ scan i src a
unfolding scan
scan-plain i src a (no_colon, no_slash) above = rw no_colon (rw no_slash (rw above refl))

scan-colon :
    (i : ℕ) (src : List ℕ) (a : Address)
    → get_or src (suc i) 0 ≡ 58
    → has_port src (suc i) ≡ true
    → (i == 0) ≡ false
    → scan (suc i) src a ≡ scan i (cut_port src (suc i) a).0 (cut_port src (suc i) a).1
unfolding scan
scan-colon i src a e port above = rw e (rw port (rw above refl))

scan-slash :
    (i : ℕ) (src : List ℕ) (a : Address)
    → get_or src (suc i) 0 ≡ 47
    → scan (suc i) src a ≡ copy_ip (c_string (drop (suc (suc i)) src)) a
unfolding scan
scan-slash i src a e = rw e refl

-- The scan passes over a stretch of plain bytes.
scan-over :
    (p mid post : List ℕ) (q : ℕ) (a : Address)
    → length p ≡ suc q
    → (q == 0) ≡ false
    → All IsPlain mid
    → scan (q + length mid) (p ++ (mid ++ post)) a ≡ scan q (p ++ (mid ++ post)) a
scan-over p [] post q a lp above plain = ap (λ n. scan n (p ++ post) a) (omega arith)
scan-over p (m ∷ ms) post q a lp above (pm, plain) =
    let assoc : (p ++ (m ∷ [])) ++ (ms ++ post) ≡ p ++ (m ∷ (ms ++ post)) =
      append_assoc p (m ∷ []) (ms ++ post) in
    let longer : length (p ++ (m ∷ [])) ≡ suc (suc q) = omega (arith, length-append p (m ∷ [])) in
    let rest = scan-over (p ++ (m ∷ [])) ms post (suc q) a longer (ground arith) plain in
    let at : get_or (p ++ (m ∷ (ms ++ post))) (suc q) 0 ≡ m =
      subst (λ n. get_or (p ++ (m ∷ (ms ++ post))) n 0 ≡ m) lp
        (get_or-append_at p m (ms ++ post) 0) in
    let count : q + suc (length ms) ≡ suc q + length ms = omega arith in
    ap (λ n. scan n (p ++ (m ∷ (ms ++ post))) a) count
    ∙ subst (λ l. scan (suc q + length ms) l a ≡ scan (suc q) l a) assoc rest
    ∙ scan-plain q (p ++ (m ∷ (ms ++ post))) a (subst IsPlain (sym at) pm) above

-- From the end of the array down to the last colon: the digits behind it become the port.
scan-port :
    (u t : List ℕ) (i : ℕ) (a : Address)
    → length u ≡ suc i
    → (i == 0) ≡ false
    → All IsPlain t
    → is_int (atoi (c_string t)) ≡ true
    → scan (length u + length t) (u ++ (58 ∷ t)) a
      ≡ scan i (u ++ (0 ∷ t)) (record a { port = some (atoi (c_string t)) })
scan-port u t i a lu above plain int =
    let whole : (u ++ (58 ∷ [])) ++ (t ++ []) ≡ u ++ (58 ∷ t) =
      append_assoc u (58 ∷ []) (t ++ []) ∙ ap (λ l. u ++ (58 ∷ l)) (append-nil t) in
    let over =
      scan-over (u ++ (58 ∷ [])) t [] (length u) a (omega (arith, length-append u (58 ∷ [])))
        (ground arith) plain in
    let at : get_or (u ++ (58 ∷ t)) (suc i) 0 ≡ 58 =
      subst (λ n. get_or (u ++ (58 ∷ t)) n 0 ≡ 58) lu (get_or-append_at u 58 t 0) in
    let cut : set (u ++ (58 ∷ t)) (suc i) 0 ≡ u ++ (0 ∷ t) =
      subst (λ n. set (u ++ (58 ∷ t)) n 0 ≡ u ++ (0 ∷ t)) lu (set-append_at u 58 t 0) in
    let digits : drop (suc (suc i)) (u ++ (58 ∷ t)) ≡ t =
      subst (λ n. drop (suc n) (u ++ (58 ∷ t)) ≡ t) lu (drop-append_at u 58 t) in
    subst (λ l. scan (length u + length t) l a ≡ scan (length u) l a) whole over
    ∙ ap (λ n. scan n (u ++ (58 ∷ t)) a) lu
    ∙ scan-colon i (u ++ (58 ∷ t)) a at
        (subst (λ d. is_int (atoi (c_string d)) ≡ true) (sym digits) int) above
    ∙ ap₂ (λ l d. scan i l (record a { port = some (atoi (c_string d)) })) cut digits

-- From there down to the last slash: what is between them becomes the IP address.
scan-ip :
    (p ip r : List ℕ) (k : ℕ) (a : Address)
    → length p ≡ suc k
    → All IsPlain ip
    → scan (length p + length ip) (p ++ (47 ∷ (ip ++ r))) a ≡ copy_ip (c_string (ip ++ r)) a
scan-ip p ip r k a lp plain =
    let whole : (p ++ (47 ∷ [])) ++ (ip ++ r) ≡ p ++ (47 ∷ (ip ++ r)) =
      append_assoc p (47 ∷ []) (ip ++ r) in
    let over =
      scan-over (p ++ (47 ∷ [])) ip r (length p) a (omega (arith, length-append p (47 ∷ [])))
        (ground arith) plain in
    let at : get_or (p ++ (47 ∷ (ip ++ r))) (suc k) 0 ≡ 47 =
      subst (λ n. get_or (p ++ (47 ∷ (ip ++ r))) n 0 ≡ 47) lp (get_or-append_at p 47 (ip ++ r) 0) in
    let rest : drop (suc (suc k)) (p ++ (47 ∷ (ip ++ r))) ≡ ip ++ r =
      subst (λ n. drop (suc n) (p ++ (47 ∷ (ip ++ r))) ≡ ip ++ r) lp
        (drop-append_at p 47 (ip ++ r)) in
    subst (λ l. scan (length p + length ip) l a ≡ scan (length p) l a) whole over
    ∙ ap (λ n. scan n (p ++ (47 ∷ (ip ++ r))) a) lp
    ∙ scan-slash k (p ++ (47 ∷ (ip ++ r))) a at
    ∙ ap (λ l. copy_ip (c_string l) a) rest

IsDigit-IsPlain : (t : List ℕ) → All IsDigit t → All IsPlain (t ++ (0 ∷ []))
IsDigit-IsPlain [] h = ((refl, refl), tt)
IsDigit-IsPlain (c ∷ t) (d, h) = ((ground arith, ground arith), IsDigit-IsPlain t h)

IsDigit-no_zero : (t : List ℕ) → All IsDigit t → All (λ c. (c == 0) ≡ false) t
IsDigit-no_zero [] h = tt
IsDigit-no_zero (c ∷ t) (d, h) = (ground arith, IsDigit-no_zero t h)

ip-no_zero : (ip : List ℕ) → All IsIpByte ip → All (λ c. (c == 0) ≡ false) ip
ip-no_zero [] h = tt
ip-no_zero (c ∷ ip) ((z, p), h) = (z, ip-no_zero ip h)

ip-IsPlain : (ip : List ℕ) → All IsIpByte ip → All IsPlain ip
ip-IsPlain [] h = tt
ip-IsPlain (c ∷ ip) ((z, p), h) = (p, ip-IsPlain ip h)

abbrev blank : Address
blank = record { ip = none; port = none }

scan-key :
    (p ip t : List ℕ) (k : ℕ)
    → length p ≡ suc k
    → All IsIpByte ip
    → length ip < 16
    → All IsPlain t
    → is_int (atoi (c_string t)) ≡ true
    → scan (length (p ++ (47 ∷ ip)) + length t) ((p ++ (47 ∷ ip)) ++ (58 ∷ t)) blank
      ≡ some (record { ip = some ip; port = some (atoi (c_string t)) })
scan-key p ip t k lp good_ip short plain int =
    let a : Address = record { ip = none; port = some (atoi (c_string t)) } in
    scan-port (p ++ (47 ∷ ip)) t (length p + length ip) blank
      (omega (arith, length-append p (47 ∷ ip))) (ground arith) plain int
    ∙ ap (λ l. scan (length p + length ip) l a) (append_assoc p (47 ∷ ip) (0 ∷ t))
    ∙ scan-ip p ip (0 ∷ t) k a lp (ip-IsPlain ip good_ip)
    ∙ ap (λ s. copy_ip s a) (c_string-append ip t (ip-no_zero ip good_ip))
    ∙ rw (lt→ltb (length ip) 16 short) refl

-- A key that ends in a slash, an IP address of fewer than 16 bytes without a colon or a slash, a colon
-- and digits whose number is an `int`, with a byte or more before the slash, is parsed into that
-- address and the number of those digits.
pub parse_ip_and_port-key :
    (b : ℕ) (dirs ip : List ℕ) (d : ℕ) (digits : List ℕ)
    → All IsIpByte ip
    → length ip < 16
    → All IsDigit (d ∷ digits)
    → digits_value 0 (d ∷ digits) < 2147483648
    → parse_ip_and_port ((b ∷ dirs) ++ (47 ∷ (ip ++ (58 ∷ (d ∷ digits)))))
      ≡ some (record { ip = some ip; port = some (pos (digits_value 0 (d ∷ digits))) })
unfolding parse_ip_and_port
parse_ip_and_port-key b dirs ip d digits good_ip short (hd, hs) small =
    let p : List ℕ = b ∷ dirs in
    let u : List ℕ = p ++ (47 ∷ ip) in
    let ds : List ℕ = d ∷ digits in
    let t : List ℕ = ds ++ (0 ∷ []) in
    let whole : p ++ (47 ∷ (ip ++ (58 ∷ ds))) ≡ u ++ (58 ∷ ds) =
      sym (append_assoc p (47 ∷ ip) (58 ∷ ds)) in
    let count : length (u ++ (58 ∷ ds)) ≡ length u + length t =
      omega (arith, length-append u (58 ∷ ds), length-append ds (0 ∷ [])) in
    let port : atoi (c_string t) ≡ pos (digits_value 0 ds) =
      ap atoi (c_string-append ds [] (IsDigit-no_zero ds (hd, hs))) ∙ atoi-digits d digits hd in
    ap (λ l. scan (length l) (l ++ (0 ∷ [])) blank) whole
    ∙ ap₂ (λ n l. scan n l blank) count (append_assoc u (58 ∷ ds) (0 ∷ []))
    ∙ scan-key p ip t (length dirs) refl good_ip short (IsDigit-IsPlain ds (hd, hs))
        (ap is_int port ∙ lt→ltb _ _ small)
    ∙ ap (λ n. some (record { ip = some ip; port = some n })) port
