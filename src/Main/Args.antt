-- ===== src/Main/Args.antt =====
-- The command lines that src/main.cpp takes, and what it makes of them.
use my_wireshark.Base.{
  ℕ, ◌≡◌, ◌≢◌, refl, sym, ap, ◌∙◌, ◌⊎◌, inl, inr, Bool, true, false, List, [], ◌∷◌, ◌++◌, Option,
  none, some, if◌then◌else◌, subst,
}
use my_wireshark.Base.Text.{codes, same_bytes}
use my_wireshark.Base.Decide.{Decides, same_bytes-Decides}
use my_wireshark.Main.{
  Options, no_options, set_option, ParsedArgs, options, bad_argument, parse_args,
}

pub data Flag : Type 0 where
  interface capture display output : Flag

abbrev pub flag_text : Flag → List ℕ
flag_text interface = codes "-i"
flag_text capture = codes "-f"
flag_text display = codes "-Y"
flag_text output = codes "-w"

-- A command line: each flag with its value.
abbrev pub command_line : List (Flag × List ℕ) → List (List ℕ)
command_line [] = []
command_line ((flag, value) ∷ rest) = flag_text flag ∷ value ∷ command_line rest

abbrev pub same_flag : Flag → Flag → Bool
same_flag interface interface = true
same_flag capture capture = true
same_flag display display = true
same_flag output output = true
same_flag _ _ = false

-- The last value that is given for a flag, and `value` if there is none.
abbrev pub last_of : Flag → List (Flag × List ℕ) → List ℕ → List ℕ
last_of flag [] value = value
last_of flag ((other, v) ∷ rest) value =
    last_of flag rest (if same_flag flag other then v else value)

-- Whether a flag is given.
abbrev pub is_given : Flag → List (Flag × List ℕ) → Bool → Bool
is_given flag [] before = before
is_given flag ((other, v) ∷ rest) before =
    is_given flag rest (if same_flag flag other then true else before)

-- Every option is the last value of its flag, and otherwise as in `before`.
pub record AreLast (settings : List (Flag × List ℕ)) (before o : Options) : Type 0 where
  pub iface : o.cli_iface ≡ last_of interface settings before.cli_iface
  pub given : o.have_iface ≡ is_given interface settings before.have_iface
  pub capture_filter : o.cli_capture_filter ≡ last_of capture settings before.cli_capture_filter
  pub display_filter : o.cli_display_filter ≡ last_of display settings before.cli_display_filter
  pub pcap_path : o.cli_pcap_path ≡ last_of output settings before.cli_pcap_path

abbrev with_flag : Flag → List ℕ → Options → Options
with_flag interface value o = record o { cli_iface = value; have_iface = true }
with_flag capture value o = record o { cli_capture_filter = value }
with_flag display value o = record o { cli_display_filter = value }
with_flag output value o = record o { cli_pcap_path = value }

set_option-flag :
    (flag : Flag) (value : List ℕ) (o : Options)
    → set_option (flag_text flag) value o ≡ some (with_flag flag value o)
unfolding set_option same_bytes
set_option-flag interface value o = refl
set_option-flag capture value o = refl
set_option-flag display value o = refl
set_option-flag output value o = refl

AreLast-nil : (o : Options) → AreLast [] o o
AreLast-nil o = record {
  iface = refl;
  given = refl;
  capture_filter = refl;
  display_filter = refl;
  pcap_path = refl;
}

AreLast-cons :
    (flag : Flag) (value : List ℕ) (rest : List (Flag × List ℕ)) (before o : Options)
    → AreLast rest (with_flag flag value before) o
    → AreLast ((flag, value) ∷ rest) before o
AreLast-cons interface value rest before o h = record {
  iface = h.iface;
  given = h.given;
  capture_filter = h.capture_filter;
  display_filter = h.display_filter;
  pcap_path = h.pcap_path;
}
AreLast-cons capture value rest before o h = record {
  iface = h.iface;
  given = h.given;
  capture_filter = h.capture_filter;
  display_filter = h.display_filter;
  pcap_path = h.pcap_path;
}
AreLast-cons display value rest before o h = record {
  iface = h.iface;
  given = h.given;
  capture_filter = h.capture_filter;
  display_filter = h.display_filter;
  pcap_path = h.pcap_path;
}
AreLast-cons output value rest before o h = record {
  iface = h.iface;
  given = h.given;
  capture_filter = h.capture_filter;
  display_filter = h.display_filter;
  pcap_path = h.pcap_path;
}

taken :
    (settings : List (Flag × List ℕ)) (before : Options)
    → (o : Options) × (parse_args before (command_line settings) ≡ options o)
      × AreLast settings before o
unfolding parse_args
taken [] before = (before, refl, AreLast-nil before)
taken ((flag, value) ∷ rest) before =
    let (o, e, h) = taken rest (with_flag flag value before) in
    (
      o,
      ap
            (λ (r : Option Options). elim r [
              | none ↦ bad_argument (flag_text flag)
              | some o' ↦ parse_args o' (command_line rest)
            ])
            (set_option-flag flag value before)
          ∙ e,
      AreLast-cons flag value rest before o h,
    )

-- The command line of any flags with their values is taken: each option is the last value that is
-- given for its flag, and empty if there is none; an interface counts as given exactly if its flag
-- is there.
pub parse_args-command_line :
    (settings : List (Flag × List ℕ))
    → (o : Options) × (parse_args no_options (command_line settings) ≡ options o)
      × AreLast settings no_options o
parse_args-command_line settings = taken settings no_options

-- None of the four flags.
abbrev pub IsNoFlag : List ℕ → Type 0
IsNoFlag arg =
    (arg ≢ flag_text interface)
    × (arg ≢ flag_text capture)
    × (arg ≢ flag_text display)
    × (arg ≢ flag_text output)

-- How the arguments make the result: options come from a command line. A bad argument stands after
-- one, and is the last of the arguments or no flag.
abbrev pub Explains : Options → List (List ℕ) → ParsedArgs → Type 0
Explains before args (options o) =
    (settings : List (Flag × List ℕ)) × (args ≡ command_line settings) × AreLast settings before o
Explains before args (bad_argument arg) =
    (settings : List (Flag × List ℕ)) × (rest : List (List ℕ)) × (args
      ≡ command_line settings ++ arg ∷ rest)
    × ((rest ≡ []) ⊎ IsNoFlag arg)

set_option-cases :
    (arg value : List ℕ) (o : Options)
    → ((flag : Flag) × (arg ≡ flag_text flag)) ⊎ (IsNoFlag arg × (set_option arg value o ≡ none))
unfolding set_option
set_option-cases arg value o =
    go _ _ _ _ (same_bytes-Decides arg (codes "-i")) (same_bytes-Decides arg (codes "-f"))
      (same_bytes-Decides arg (codes "-Y")) (same_bytes-Decides arg (codes "-w"))
  where
    go :
        (i f y w : Bool)
        → Decides i (arg ≡ codes "-i")
        → Decides f (arg ≡ codes "-f")
        → Decides y (arg ≡ codes "-Y")
        → Decides w (arg ≡ codes "-w")
        → ((flag : Flag) × (arg ≡ flag_text flag))
          ⊎ (IsNoFlag arg
              × ((if i
                    then some (with_flag interface value o)
                    else if f
                    then some (with_flag capture value o)
                    else if y
                    then some (with_flag display value o)
                    else if w
                    then some (with_flag output value o)
                    else none)
                  ≡ none))
    go true f y w a b c d = inl (interface, a.sound refl)
    go false true y w a b c d = inl (capture, b.sound refl)
    go false false true w a b c d = inl (display, c.sound refl)
    go false false false true a b c d = inl (output, d.sound refl)
    go false false false false a b c d = inr (
      (
        (λ e. cc (a.complete e)),
        (λ e. cc (b.complete e)),
        (λ e. cc (c.complete e)),
        (λ e. cc (d.complete e)),
      ),
      refl,
    )

Explains-cons :
    (before : Options) (flag : Flag) (value : List ℕ) (args : List (List ℕ)) (r : ParsedArgs)
    → Explains (with_flag flag value before) args r
    → Explains before (flag_text flag ∷ value ∷ args) r
Explains-cons before flag value args (options o) (s, e, h) = (
  (flag, value) ∷ s,
  ap (λ (rest : List (List ℕ)). flag_text flag ∷ value ∷ rest) e,
  AreLast-cons flag value s before o h,
)
Explains-cons before flag value args (bad_argument arg) (s, rest, e, h) =
    ((flag, value) ∷ s, rest, ap (λ (xs : List (List ℕ)). flag_text flag ∷ value ∷ xs) e, h)

explained :
    (args : List (List ℕ)) (before : Options) → Explains before args (parse_args before args)
unfolding parse_args
explained [] before = ([], refl, AreLast-nil before)
explained (arg ∷ []) before = ([], [], refl, inl refl)
explained (arg ∷ value ∷ rest) before =
    go (set_option-cases arg value before) (λ before'. explained rest before')
  where
    tried : Option Options → ParsedArgs
    tried o = elim o [ none ↦ bad_argument arg | some o' ↦ parse_args o' rest ]

    go :
        ((flag : Flag) × (arg ≡ flag_text flag))
          ⊎ (IsNoFlag arg × (set_option arg value before ≡ none))
        → ((before' : Options) → Explains before' rest (parse_args before' rest))
        → Explains before (arg ∷ value ∷ rest) (tried (set_option arg value before))
    go (inl (flag, e)) ih =
        subst
          (λ (a : List ℕ). Explains before (a ∷ value ∷ rest) (elim (set_option a value before) [
            | none ↦ bad_argument a
            | some o' ↦ parse_args o' rest
          ]))
          (sym e)
          (subst
            (λ (o : Option Options).
              Explains before (flag_text flag ∷ value ∷ rest)
                (elim o [ none ↦ bad_argument (flag_text flag) | some o' ↦ parse_args o' rest ]))
            (sym (set_option-flag flag value before))
            (Explains-cons before flag value rest _ (ih (with_flag flag value before))))
    go (inr (n, e)) ih =
        subst (λ (o : Option Options). Explains before (arg ∷ value ∷ rest) (tried o)) (sym e)
          ([], value ∷ rest, refl, inr n)

-- Whatever the arguments: if options are made of them, they are a command line of flags and
-- values, and each option is the last value of its flag. If not, the argument that is complained
-- of stands after such a command line, and is the last argument or none of the four flags.
pub parse_args-Explains :
    (args : List (List ℕ)) → Explains no_options args (parse_args no_options args)
parse_args-Explains args = explained args no_options
