-- ===== src/Backend/Live/Logs.antt =====
-- The log entries that `get_recent_logs` returns from a live device.
use routeros_inspector_mcp.Base.{
  ℕ, zero, suc, ◌-◌, ◌≤◌, String, ◌≡◌, refl, sym, ap, ◌∙◌, any, select, ◌++◌, ◌⊎◌, Bool, true,
  false, List, [], ◌∷◌, Dict, arith, ℤ, length, if◌then◌else◌, inl, inr, Bool-cases, ltb,
}
use routeros_inspector_mcp.Errors.{Result, ok, err, ok-injective}
use routeros_inspector_mcp.Value.{
  Value, Fields, int, str, arr, truthy, get_or, null, bool, obj, of_items, is_str,
}
use routeros_inspector_mcp.Text.{has_part}
use routeros_inspector_mcp.Config.{DeviceEntry}
use routeros_inspector_mcp.Credentials.{Credentials}
use routeros_inspector_mcp.Backend.Live.{
  is_key, Client, Action, ◌>>=◌, pure, drop, last_entries, keep_if, has_topic, topic_names,
  matching_logs, dict_items, query, get_recent_logs,
}

-- An entry has one of the topics: a text of topics holds it, or a list or a dict has it as a member.
abbrev pub names_topic : List String → Value → Bool
names_topic names (str s) = any (has_part s) names
names_topic names (arr vs) = any (λ t. any (is_str t) (of_items vs)) names
names_topic names (obj d) = any (λ t. is_key t d) names
names_topic names _ = false

abbrev pub is_topical : List String → Fields → Bool
is_topical names d = names_topic names (get_or d "topics" (str ""))

has_topic-eq-ok :
    (names : List String) (v : Value) (b : Bool)
    → has_topic names v ≡ ok b
    → names_topic names v ≡ b
has_topic-eq-ok names (str s) b h = ok-injective h
has_topic-eq-ok names (arr vs) b h = ok-injective h
has_topic-eq-ok names (obj d) b h = ok-injective h
has_topic-eq-ok names null b h = cc
has_topic-eq-ok names (bool c) b h = cc
has_topic-eq-ok names (int i) b h = cc

keep_if-eq-ok :
    (d : Fields) (keep : Result Bool) (rest : Result (List Fields)) (logs : List Fields)
    → keep_if d keep rest ≡ ok logs
    → (kept : Bool) × (tail : List Fields) × (keep ≡ ok kept)
      × (rest ≡ ok tail)
      × (logs ≡ (if kept then d ∷ tail else tail))
keep_if-eq-ok d (err e) rest logs h = cc
keep_if-eq-ok d (ok keep) (err e) logs h = cc
keep_if-eq-ok d (ok true) (ok tail) logs h = (true, tail, refl, refl, sym (ok-injective h))
keep_if-eq-ok d (ok false) (ok tail) logs h = (false, tail, refl, refl, sym (ok-injective h))

matching_logs_lem :
    (names : List String) (all_logs logs : List Fields)
    → matching_logs names all_logs ≡ ok logs
    → logs ≡ select (is_topical names) all_logs
unfolding matching_logs
matching_logs_lem names [] logs h = sym (ok-injective h)
matching_logs_lem names (d ∷ ds) logs h =
    let (kept, tail, p, q, e) = keep_if-eq-ok d _ (matching_logs names ds) logs h in
    let more = matching_logs_lem names ds tail q in
    let same = has_topic-eq-ok names (get_or d "topics" (str "")) kept p in rw (e, same, more) refl

-- The entries that are kept of those printed: the last 500, or all where there are no more.
pub record AreLast (found recent : List Fields) : Type 0 where
  pub before : List Fields
  pub split : found ≡ before ++ recent
  pub many : (before ≡ []) ⊎ (length recent ≡ 500)
  pub few : length recent ≤ 500

split_drop {ℓ} :
    {A : Type ℓ} (n : ℕ) (xs : List A) → (ys : List A) × (xs ≡ ys ++ drop n xs) × (length ys ≤ n)
split_drop zero xs = ([], refl, omega arith)
split_drop (suc n) [] = ([], refl, omega arith)
split_drop (suc n) (x ∷ xs) =
    let (ys, e, l) = split_drop n xs in (x ∷ ys, ap (λ zs. x ∷ zs) e, omega (arith, l))

length-drop {ℓ} : {A : Type ℓ} (n : ℕ) (xs : List A) → length (drop n xs) ≡ length xs - n
length-drop zero xs = omega arith
length-drop (suc n) [] = omega arith
length-drop (suc n) (x ∷ xs) = omega (arith, length-drop n xs)

no_more : (ys : List Fields) → length ys ≤ 0 → ys ≡ []
no_more [] h = refl
no_more (y ∷ ys) h = absurd (omega (arith, h))

all_or_many :
    (n m : ℕ) (ys : List Fields) → length ys ≤ n - 500 → m ≡ n - (n - 500) → (ys ≡ []) ⊎ (m ≡ 500)
all_or_many n m ys h e = elim (Bool-cases (ltb 500 n)) [
  | inl more ↦ inr (ground arith)
  | inr less ↦ inl (no_more ys (ground arith))
]

last_entries-AreLast : (found : List Fields) → AreLast found (last_entries 500 found)
last_entries-AreLast found =
    let (ys, e, l) = split_drop (length found - 500) found in
    let m = length-drop (length found - 500) found in
    record {
      before = ys;
      split = e;
      many = all_or_many (length found) (length (last_entries 500 found)) ys l m;
      few = omega (arith, m);
    }

-- Inversion of a chain that returned.
>>=-eq-ok {ℓ κ} :
    {A : Type ℓ} {B : Type κ} (m : Action A) (f : A → Action B) {b : B}
    → (m >>= f).0 ≡ ok b
    → (a : A) × (m.0 ≡ ok a) × ((f a).0 ≡ ok b)
>>=-eq-ok (ok a, events) f h = (a, refl, h)
>>=-eq-ok (err e, events) f h = cc

-- The answer for the entries that are kept: all of them, or, where topics are named, those of them
-- that have one.
abbrev pub IsAnswer : Value → List Fields → Value → Bool → Type 0
IsAnswer topics recent v true =
    (names : List String) × (topic_names topics ≡ ok names)
    × (v ≡ arr (dict_items (select (is_topical names) recent)))
IsAnswer topics recent v false = v ≡ arr (dict_items recent)

by_topics :
    (topics : Value) (recent : List Fields) (v : Value) (b : Bool)
    → (if b
        then (pure (topic_names topics) >>= λ names.
            pure (matching_logs names recent) >>= λ logs. pure (ok (arr (dict_items logs))))
        else pure {A = Value} (ok (arr (dict_items recent)))).0
      ≡ ok v
    → IsAnswer topics recent v b
by_topics topics recent v true h =
    let (names, p, h₁) = >>=-eq-ok (pure (topic_names topics)) _ h in
    let (logs, q, h₂) = >>=-eq-ok (pure (matching_logs names recent)) _ h₁ in
    (
      names,
      p,
      sym (ok-injective h₂)
          ∙ ap (λ ls. arr (dict_items ls)) (matching_logs_lem names recent logs q),
    )
by_topics topics recent v false h = sym (ok-injective h)

module _ (client : Client) (resolve : String → Result Credentials)
    (devices : Dict DeviceEntry) where
  -- For a number of minutes, the answer is made of the last 500 entries that the device printed, or of
  -- all where it printed fewer: these entries, or, where topics are named, exactly those of them that
  -- have one of the topics, in their order. How old an entry is plays no part: any other number of
  -- minutes is answered alike.
  pub get_recent_logs-AreRecent :
      (device_id : String) (minutes minutes' : ℤ) (topics v : Value)
      → (get_recent_logs client resolve devices device_id (int minutes) topics).0 ≡ ok v
      → ((get_recent_logs client resolve devices device_id (int minutes') topics).0 ≡ ok v)
        × (found recent : List Fields) × ((query client resolve devices device_id ("log" ∷ [])).0
            ≡ ok found)
        × AreLast found recent
        × IsAnswer topics recent v (truthy topics)
  unfolding get_recent_logs
  get_recent_logs-AreRecent device_id minutes minutes' topics v h =
      let (found, p, h₁) = >>=-eq-ok (query client resolve devices device_id ("log" ∷ [])) _ h in
      (
        h,
        found,
        last_entries 500 found,
        p,
        last_entries-AreLast found,
        by_topics topics (last_entries 500 found) v (truthy topics) h₁,
      )
