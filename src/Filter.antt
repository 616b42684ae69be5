-- ===== src/Filter.antt =====
-- The filters of the GraphQL queries: `RawEventFilter`, `check_address`, `check_port`,
-- `check_contents` and `check_source` of src/graphql.rs, and the `check` of each filter. A text is
-- its bytes. `str::parse::<IpAddr>` and `str::to_lowercase` are parameters.
pub mod Semantics
pub mod Keys
use giganto.Prelude.{
  ℕ, ◌≡◌, Bool, true, false, ◌&&◌, ◌||◌, not, Option, none, some, List, [], ◌∷◌, ltb, leb, ◌==◌,
  if◌then◌else◌, compare, Ordering,
}
use giganto.Bytes.{Bytes}
use giganto.Outcome.{Outcome, ok, err, ◌>>=◌}
use giganto.Store.{equals}

abbrev pub Text : Type 0
Text = Bytes

-- `IpAddr`, whose order puts every IPv4 address before every IPv6 address.
pub data IpAddr : Type 0 where
  v4 v6 : ℕ → IpAddr

abbrev pub cmp_addr : IpAddr → IpAddr → Ordering
cmp_addr (v4 a) (v4 b) = compare a b
cmp_addr (v4 a) (v6 b) = Ordering.lt
cmp_addr (v6 a) (v4 b) = Ordering.gt
cmp_addr (v6 a) (v6 b) = compare a b

abbrev pub addr_lt : IpAddr → IpAddr → Bool
addr_lt a b = elim (cmp_addr a b) [ Ordering.lt ↦ true | _ ↦ false ]

abbrev pub addr_eq : IpAddr → IpAddr → Bool
addr_eq a b = elim (cmp_addr a b) [ Ordering.eq ↦ true | _ ↦ false ]

pub record IpRange : Type 0 where
  pub start : Option Text
  pub end : Option Text

pub record PortRange : Type 0 where
  pub start : Option ℕ
  pub end : Option ℕ

abbrev pub starts_with : Text → Text → Bool
starts_with s [] = true
starts_with [] (c ∷ cs) = false
starts_with (d ∷ ds) (c ∷ cs) = (d == c) && starts_with ds cs

-- `str::contains`
unfoldable pub contains : Text → Text → Bool
contains [] p = starts_with [] p
contains (c ∷ cs) p = starts_with (c ∷ cs) p || contains cs p

-- The arguments of `RawEventFilter::check`, as `EventFilter` reads them from an event.
pub record Fields : Type 0 where
  pub orig_addr : Option IpAddr
  pub resp_addr : Option IpAddr
  pub orig_port : Option ℕ
  pub resp_port : Option ℕ
  pub log_level : Option Text
  pub log_contents : Option Text
  pub text : Option Text
  pub source : Option Text

unfoldable pub check_port : Option PortRange → Option ℕ → Bool
check_port none target = true
check_port (some range) none = true
check_port (some range) (some port) = elim range.start [
  | none ↦ true
  | some start ↦ elim range.end [ none ↦ port == start | some end ↦ leb start port && ltb port end ]
]

unfoldable pub check_contents : Option Text → Option Text → Bool
check_contents none target = true
check_contents (some pattern') none = false
check_contents (some pattern') (some contents) = contains contents pattern'

unfoldable pub check_source : Option Text → Option Text → Bool
check_source none target = true
check_source (some wanted) none = false
check_source (some wanted) (some source) = equals source wanted

module _ (parse : Text → Outcome IpAddr) where
  -- `addr >= start && addr < end` parses `end` only if the first test passes.
  unfoldable pub check_address : Option IpRange → Option IpAddr → Outcome Bool
  check_address none target = ok true
  check_address (some range) none = ok true
  check_address (some range) (some addr) = elim range.start [
    | none ↦ ok true
    | some start ↦ elim range.end [
      | none ↦ do s ← parse start; ok (addr_eq addr s)
      | some end ↦ do
        s ← parse start
        if addr_lt addr s then ok false else do e ← parse end; ok (addr_lt addr e)
    ]
  ]

  -- The chain of tests that the network, search, export and security log filters share: an address
  -- is parsed only if the tests before it pass.
  unfoldable pub check_network :
      Option IpRange → Option IpRange → Option PortRange → Option PortRange → Fields → Outcome Bool
  unfolding check_address check_port
  check_network orig_addr resp_addr orig_port resp_port f = do
    a ← check_address orig_addr f.orig_addr
    if not a then ok false else do
      b ← check_address resp_addr f.resp_addr
      if not b
          then ok false
          else ok (check_port orig_port f.orig_port && check_port resp_port f.resp_port)

-- `NetworkFilter`, `OpLogFilter`, `SecuLogFilter` and `SearchFilter` without their time ranges and
-- sources, which select the keys.
pub record NetworkFilter : Type 0 where
  pub orig_addr : Option IpRange
  pub resp_addr : Option IpRange
  pub orig_port : Option PortRange
  pub resp_port : Option PortRange

pub record OpLogFilter : Type 0 where
  pub log_level : Option Text
  pub contents : Option Text

pub record SecuLogFilter : Type 0 where
  pub network : NetworkFilter
  pub log : Option Text
  pub source : Option Text

pub record SearchFilter : Type 0 where
  pub network : NetworkFilter
  pub keyword : Option Text

-- An event without the part that a filter asks for passes.
abbrev pub refused : (Text → Text → Bool) → Option Text → Option Text → Bool
refused test none target = false
refused test (some wanted) none = false
refused test (some wanted) (some text) = not (test text wanted)

unfoldable pub check_op_log : OpLogFilter → Fields → Outcome Bool
unfolding contains
check_op_log filter f =
    if refused equals filter.log_level f.log_level
    then ok false
    else if refused contains filter.contents f.log_contents
    then ok false
    else ok true

-- The keyword of a search: an event without text is refused.
abbrev pub keyword_refuses : (Text → Text) → Option Text → Option Text → Bool
keyword_refuses to_lowercase none text = false
keyword_refuses to_lowercase (some keyword) none = true
keyword_refuses to_lowercase (some keyword) (some text) =
    not (contains (to_lowercase text) (to_lowercase keyword))

module _ (parse : Text → Outcome IpAddr) where
  abbrev pub check_network_filter : NetworkFilter → Fields → Outcome Bool
  check_network_filter filter f =
      check_network parse filter.orig_addr filter.resp_addr filter.orig_port filter.resp_port f

  unfoldable pub check_secu_log : SecuLogFilter → Fields → Outcome Bool
  unfolding check_contents check_source
  check_secu_log filter f = do
    b ← check_network_filter filter.network f
    ok (b && check_contents filter.log f.log_contents && check_source filter.source f.source)

  unfoldable pub check_search : (Text → Text) → SearchFilter → Fields → Outcome Bool
  unfolding contains
  check_search to_lowercase filter f =
      if keyword_refuses to_lowercase filter.keyword f.text
      then ok false
      else check_network_filter filter.network f
