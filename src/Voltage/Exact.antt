-- ===== src/Voltage/Exact.antt =====
-- Which answers to AT+CBC are accepted, and with what reading.
use luci_app_l850gl_mm.Base.Result.{
  Result, ok, err, ◌>>=◌, >>=-eq-ok, refuse_if-eq-ok, required-eq-ok, refuse_if, required,
}
use luci_app_l850gl_mm.Base.{
  ◌%◌, ◌≤◌, true, false, ◌||◌, List, [], ◌∷◌, Option, none, some, ltb, Bytes, codes, length, ◌≡◌,
  ◌↔◌, refl, arith, ◌∙◌, ap,
}
use luci_app_l850gl_mm.CellLock.Scan.{clean}
use luci_app_l850gl_mm.Text.{trim_ascii, split, after_prefix, has_byte}
use luci_app_l850gl_mm.Voltage.{
  Failure, malformed, range, Voltage, parse_ok, max_response, min_mv, max_mv, status_max,
  parse_uint32_decimal, note_line, find_record, read_fields, read_voltage, voltage_out,
  voltage_parse,
}

abbrev keep_text : Bytes → List Bytes → List Bytes
keep_text [] ts = ts
keep_text (c ∷ t) ts = (c ∷ t) ∷ ts

-- The lines that hold text, without the blanks around it.
abbrev pub texts : List Bytes → List Bytes
texts [] = []
texts (line ∷ lines) = keep_text (clean line) (texts lines)

-- The reading that a line of text stands for.
pub record IsReading (line : Bytes) (v : Voltage) : Type 0 where
  pub body : Bytes
  pub status_text : Bytes
  pub millivolts_text : Bytes
  pub prefix : after_prefix (codes "+CBC:") line ≡ some body
  pub fields : split b',' (trim_ascii body) ≡ status_text ∷ millivolts_text ∷ []
  pub status : parse_uint32_decimal (trim_ascii status_text) ≡ some v.status
  pub millivolts : parse_uint32_decimal (trim_ascii millivolts_text) ≡ some v.millivolts
  pub status_known : v.status ≤ 3
  pub low : 2500 ≤ v.millivolts
  pub high : v.millivolts ≤ 5000

find_record-after :
    (lines : List Bytes) (r : Bytes) (o : Option Bytes)
    → (find_record lines (some r) ≡ ok o) ↔ ((texts lines ≡ []) × (o ≡ some r))
unfolding find_record note_line
find_record-after [] r o = ground arith
find_record-after (line ∷ lines) r o = go (clean line) (find_record-after lines r o)
  where
    go :
        (t : Bytes)
        → (find_record lines (some r) ≡ ok o) ↔ ((texts lines ≡ []) × (o ≡ some r))
        → ((note_line t (some r) >>= find_record lines) ≡ ok o)
          ↔ ((keep_text t (texts lines) ≡ []) × (o ≡ some r))
    go [] rest = rest
    go (c ∷ t) rest = ground arith

find_record_lem :
    (lines : List Bytes) (r : Bytes)
    → (find_record lines none ≡ ok (some r)) ↔ (texts lines ≡ r ∷ [])
unfolding find_record note_line
find_record_lem [] r = ground arith
find_record_lem (line ∷ lines) r = go (clean line) (find_record_lem lines r)
  where
    go :
        (t : Bytes)
        → (find_record lines none ≡ ok (some r)) ↔ (texts lines ≡ r ∷ [])
        → ((note_line t none >>= find_record lines) ≡ ok (some r))
          ↔ (keep_text t (texts lines) ≡ r ∷ [])
    go [] rest = rest
    go (c ∷ t) rest = (
      λ h.
          let (e, same) = (find_record-after lines (c ∷ t) (some r)).0 h in ground (arith, e, same),
      λ h. (find_record-after lines (c ∷ t) (some r)).1 (ground arith, ground arith),
    )

read_fields-IsReading :
    (a b : Bytes) {v : Voltage}
    → read_fields (a ∷ b ∷ []) ≡ ok v
    → (parse_uint32_decimal (trim_ascii a) ≡ some v.status)
      × (parse_uint32_decimal (trim_ascii b) ≡ some v.millivolts)
      × (v.status ≤ 3)
      × (2500 ≤ v.millivolts)
      × (v.millivolts ≤ 5000)
unfolding read_fields
read_fields-IsReading a b {v} h =
    let (st, e, h₁) = >>=-eq-ok (required malformed (parse_uint32_decimal (trim_ascii a))) _ h in
    let (mv, f, h₂) = >>=-eq-ok (required malformed (parse_uint32_decimal (trim_ascii b))) _ h₁ in
    let out = ltb status_max st || ltb mv min_mv || ltb max_mv mv in
    let (_, g, h₃) =
      >>=-eq-ok (refuse_if out range) (λ _. ok (record { status = st % 256; millivolts = mv }))
        h₂ in
    let inside = refuse_if-eq-ok out range g in
    let small : st % 256 ≡ st = ground arith in
    let same : v ≡ record { status = st; millivolts = mv } = ground (arith, small) in
    rw same (
      required-eq-ok malformed (parse_uint32_decimal (trim_ascii a)) e,
      required-eq-ok malformed (parse_uint32_decimal (trim_ascii b)) f,
      ground arith,
      ground arith,
      ground arith,
    )

read_voltage-IsReading :
    (line : Bytes) (v : Voltage) → (read_voltage (some line) ≡ ok v) ↔ IsReading line v
unfolding read_voltage read_fields
read_voltage-IsReading line v = (sound, complete)
  where
    fields_sound :
        (body : Bytes) (fs : List Bytes)
        → after_prefix (codes "+CBC:") line ≡ some body
        → split b',' (trim_ascii body) ≡ fs
        → read_fields fs ≡ ok v
        → IsReading line v
    fields_sound body [] p e h = absurd (ground arith)
    fields_sound body (a ∷ []) p e h = absurd (ground arith)
    fields_sound body (a ∷ b ∷ []) p e h =
        let (s, m, k, l, u) = read_fields-IsReading a b {v = v} h in
        record {
          body = body;
          status_text = a;
          millivolts_text = b;
          prefix = p;
          fields = e;
          status = s;
          millivolts = m;
          status_known = k;
          low = l;
          high = u;
        }
    fields_sound body (a ∷ b ∷ c ∷ fs) p e h = absurd (ground arith)

    sound : read_voltage (some line) ≡ ok v → IsReading line v
    sound h =
        let (body, p, h₁) =
          >>=-eq-ok (required malformed (after_prefix (codes "+CBC:") line))
            (λ body. read_fields (split b',' (trim_ascii body))) h in
        fields_sound body (split b',' (trim_ascii body))
          (required-eq-ok malformed (after_prefix (codes "+CBC:") line) p) refl h₁

    complete : IsReading line v → read_voltage (some line) ≡ ok v
    complete i =
        let small : v.status % 256 ≡ v.status = omega (arith, i.status_known) in
        rw (i.prefix, i.fields, i.status, i.millivolts, small)
          (ground (arith, i.status_known, i.low, i.high))

voltage_parse-lines :
    (text : Bytes)
    → 1 ≤ length text
    → length text ≤ max_response
    → has_byte 0 text ≡ false
    → voltage_parse true (some text)
      ≡ voltage_out (find_record (split b'\n' text) none >>= read_voltage)
unfolding voltage_parse
voltage_parse-lines text some_byte fits clear = rw clear (ground arith)

voltage_out-ok :
    (r : Result Failure Voltage) {v : Voltage} → voltage_out r ≡ (parse_ok, v) → r ≡ ok v
voltage_out-ok (err e) h = absurd (ground arith)
voltage_out-ok (ok i) h = ground arith

find_record-IsReading :
    (lines : List Bytes) (o : Option Bytes) (v : Voltage)
    → find_record lines none ≡ ok o
    → read_voltage o ≡ ok v
    → (line : Bytes) × (texts lines ≡ line ∷ []) × IsReading line v
unfolding read_voltage
find_record-IsReading lines none v e h = absurd (ground arith)
find_record-IsReading lines (some line) v e h =
    (line, (find_record_lem lines line).0 e, (read_voltage-IsReading line v).0 h)

-- For a response of 1 to 128 bytes with no NUL byte, and with memory at hand, the parser returns OK
-- with a status and a voltage exactly if a single line of the response holds text, and that text is
-- "+CBC:" and two decimal numbers around one comma, blanks apart, which are the status, at most 3,
-- and the voltage, from 2500 to 5000 millivolts.
pub voltage_parse_exact :
    (text : Bytes) (v : Voltage)
    → 1 ≤ length text
    → length text ≤ max_response
    → has_byte 0 text ≡ false
    → (voltage_parse true (some text) ≡ (parse_ok, v))
      ↔ ((line : Bytes) × (texts (split b'\n' text) ≡ line ∷ []) × IsReading line v)
voltage_parse_exact text v some_byte fits clear = (sound, complete)
  where
    entry :
        voltage_parse true (some text)
        ≡ voltage_out (find_record (split b'\n' text) none >>= read_voltage)
    entry = voltage_parse-lines text some_byte fits clear

    sound :
        voltage_parse true (some text) ≡ (parse_ok, v)
        → (line : Bytes) × (texts (split b'\n' text) ≡ line ∷ []) × IsReading line v
    sound h =
        let lines = split b'\n' text in
        let whole =
          voltage_out-ok (find_record lines none >>= read_voltage) {v = v} (rw entry at h) in
        let (o, e, h₁) = >>=-eq-ok (find_record lines none) read_voltage whole in
        find_record-IsReading lines o v e h₁

    complete :
        (line : Bytes) × (texts (split b'\n' text) ≡ line ∷ []) × IsReading line v
        → voltage_parse true (some text) ≡ (parse_ok, v)
    complete (line, one, i) =
        entry
        ∙ ap (λ r. voltage_out (r >>= read_voltage))
            ((find_record_lem (split b'\n' text) line).1 one)
        ∙ ap voltage_out ((read_voltage-IsReading line v).1 i)
