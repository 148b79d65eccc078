-- ===== src/Shell/Parser/Members.antt =====
-- pset4/helpers.cc and sh61.hh: the constructors, the comparisons and the iterators of the parsers.
-- command_line_parser, conditional_parser, pipeline_parser and command_parser have no data of their
-- own: each is a `Parser`, and the mask says which one an operation is of.
use cs61_f26_psets.Common.{ℕ, ◌+◌, ◌-◌, Bool, not, ◌&&◌, ◌||◌, Option, some, List, ◌==◌, ◌>>=◌}
use Prim.Native.String.{String}
use cs61_f26_psets.Common.Memory.{bytes_at, Memory}
use cs61_f26_psets.CLib.Strings.{strlen}
use cs61_f26_psets.Shell.Tokenizer.{Tokenizer, tokenize}
use cs61_f26_psets.Shell.Words.{type_name}
use cs61_f26_psets.Shell.Parser.{
  Parser, conditional, pipeline, command, parser, next_op, first_delimited, next_delimited,
}

-- `shell_parser(str)`, whose strlen takes fuel
pub parser_of_string : ℕ → Memory → ℕ → Option Parser
parser_of_string fuel m str = do n ← strlen fuel m str; some (parser m str (str + n) (str + n))

-- `shell_parser(first, last)`
pub parser_of_range : Memory → ℕ → ℕ → Parser
parser_of_range m first last = parser m first last last

-- `shell_tokenizer(str)`
pub tokenizer_of_string : ℕ → Memory → ℕ → Option Tokenizer
tokenizer_of_string fuel m str = do n ← strlen fuel m str; some (tokenize m str (str + n))

-- `next_op_name`
pub next_op_name : Memory → Parser → String
next_op_name m p = type_name (next_op m p)

-- `str`
pub parser_str : Memory → Parser → List ℕ
parser_str m p = bytes_at m p.s (p.stop - p.s)

pub parser_equal : Parser → Parser → Bool
parser_equal p q = p.s == q.s && p.stop == q.stop

pub parser_unequal : Parser → Parser → Bool
parser_unequal p q = not (p.s == q.s) || not (p.stop == q.stop)

pub parser_equal_token : Parser → Tokenizer → Bool
parser_equal_token p t = p.s == t.s && p.stop == t.end

pub parser_unequal_token : Parser → Tokenizer → Bool
parser_unequal_token p t = not (p.s == t.s) || not (p.stop == t.end)

-- `end`
pub parser_end : Memory → Parser → Parser
parser_end m p = parser m p.stop p.stop p.end

pub token_end : Memory → Parser → Tokenizer
token_end m p = tokenize m p.stop p.stop

-- `empty`, and `operator bool`, its negation
pub token_empty : Tokenizer → Bool
token_empty t = t.s == t.end

pub token_equal : Tokenizer → Tokenizer → Bool
token_equal t u = t.s == u.s && t.end == u.end

pub token_unequal : Tokenizer → Tokenizer → Bool
token_unequal t u = not (t.s == u.s) || not (t.end == u.end)

pub token_equal_parser : Tokenizer → Parser → Bool
token_equal_parser t p = t.s == p.s && t.end == p.stop

pub token_unequal_parser : Tokenizer → Parser → Bool
token_unequal_parser t p = not (t.s == p.s) || not (t.end == p.stop)

-- `conditional_begin`, `pipeline_begin` and `command_begin`, with fuel above the region's size
pub conditional_begin : ℕ → Memory → Parser → Option Parser
conditional_begin fuel m p = first_delimited fuel m conditional p

pub pipeline_begin : ℕ → Memory → Parser → Option Parser
pipeline_begin fuel m p = first_delimited fuel m pipeline p

pub command_begin : ℕ → Memory → Parser → Option Parser
command_begin fuel m p = first_delimited fuel m command p

-- `operator++` of the three
pub next_conditional : ℕ → Memory → Parser → Option Parser
next_conditional fuel m p = next_delimited fuel m conditional p

pub next_pipeline : ℕ → Memory → Parser → Option Parser
next_pipeline fuel m p = next_delimited fuel m pipeline p

pub next_command : ℕ → Memory → Parser → Option Parser
next_command fuel m p = next_delimited fuel m command p
