-- ===== src/Cli/Paths.antt =====
-- The paths of the API: the patterns of crates/ndhcpd/src/handlers/mod.rs, and the texts that the
-- commands of crates/ndhcp-cli/src/commands put into them.
use ndhcpd.Common.{ℕ, zero, suc, ◌+◌, ◌/◌, ◌%◌, [], ◌∷◌, ◌++◌, ltb, ◌==◌, if◌then◌else◌}
use ndhcpd.Bytes.{Text}

abbrev pub subnets_path : Text
subnets_path =
    b'/' ∷ b'a' ∷ b'p' ∷ b'i' ∷ b'/' ∷ b's' ∷ b'u' ∷ b'b' ∷ b'n' ∷ b'e' ∷ b't' ∷ b's' ∷ []

abbrev pub ranges_path : Text
ranges_path = b'/' ∷ b'a' ∷ b'p' ∷ b'i' ∷ b'/' ∷ b'r' ∷ b'a' ∷ b'n' ∷ b'g' ∷ b'e' ∷ b's' ∷ []

abbrev pub static_ips_path : Text
static_ips_path =
    b'/' ∷ b'a' ∷ b'p' ∷ b'i' ∷ b'/' ∷ b's' ∷ b't' ∷ b'a' ∷ b't' ∷ b'i' ∷ b'c' ∷ b'-' ∷ b'i' ∷ b'p'
    ∷ b's' ∷ []

abbrev pub leases_path : Text
leases_path = b'/' ∷ b'a' ∷ b'p' ∷ b'i' ∷ b'/' ∷ b'l' ∷ b'e' ∷ b'a' ∷ b's' ∷ b'e' ∷ b's' ∷ []

abbrev pub tokens_path : Text
tokens_path = b'/' ∷ b'a' ∷ b'p' ∷ b'i' ∷ b'/' ∷ b't' ∷ b'o' ∷ b'k' ∷ b'e' ∷ b'n' ∷ b's' ∷ []

abbrev pub ia_prefixes_path : Text
ia_prefixes_path =
    b'/' ∷ b'a' ∷ b'p' ∷ b'i' ∷ b'/' ∷ b'i' ∷ b'a' ∷ b'-' ∷ b'p' ∷ b'r' ∷ b'e' ∷ b'f' ∷ b'i' ∷ b'x'
    ∷ b'e' ∷ b's' ∷ []

abbrev pub health_path : Text
health_path = b'/' ∷ b'h' ∷ b'e' ∷ b'a' ∷ b'l' ∷ b't' ∷ b'h' ∷ []

abbrev pub id_pattern : Text
id_pattern = b'/' ∷ b'{' ∷ b'i' ∷ b'd' ∷ b'}' ∷ []

abbrev pub ip_pattern : Text
ip_pattern = b'/' ∷ b'{' ∷ b'i' ∷ b'p' ∷ b'}' ∷ []

abbrev pub hostname_pattern : Text
hostname_pattern =
    b'/' ∷ b'{' ∷ b'i' ∷ b'p' ∷ b'}' ∷ b'/' ∷ b'h' ∷ b'o' ∷ b's' ∷ b't' ∷ b'n' ∷ b'a' ∷ b'm' ∷ b'e'
    ∷ []

abbrev pub toggle_pattern : Text
toggle_pattern =
    b'/' ∷ b'{' ∷ b'i' ∷ b'd' ∷ b'}' ∷ b'/' ∷ b't' ∷ b'o' ∷ b'g' ∷ b'g' ∷ b'l' ∷ b'e' ∷ []

abbrev pub hostname_suffix : Text
hostname_suffix = b'/' ∷ b'h' ∷ b'o' ∷ b's' ∷ b't' ∷ b'n' ∷ b'a' ∷ b'm' ∷ b'e' ∷ []

abbrev pub subnet_id_query : Text
subnet_id_query = b'?' ∷ b's' ∷ b'u' ∷ b'b' ∷ b'n' ∷ b'e' ∷ b't' ∷ b'_' ∷ b'i' ∷ b'd' ∷ b'=' ∷ []

abbrev pub interface_query : Text
interface_query = b'?' ∷ b'i' ∷ b'n' ∷ b't' ∷ b'e' ∷ b'r' ∷ b'f' ∷ b'a' ∷ b'c' ∷ b'e' ∷ b'=' ∷ []

digits : ℕ → ℕ → Text
digits zero n = []
digits (suc fuel) n =
    let rest = digits fuel (n / 10) in
    if ltb n 10 then (b'0' + n) ∷ [] else rest ++ ((b'0' + n % 10) ∷ [])

-- A number in decimal: an `i64` has at most 19 digits.
unfoldable pub number_text : ℕ → Text
unfolding digits
number_text n = digits 19 n

-- `format!("…/{}", segment)`
abbrev pub under : Text → Text → Text
under path segment = path ++ (b'/' ∷ segment)

-- What stands behind the next closing brace.
unfoldable pub behind_brace : Text → Text
behind_brace [] = []
behind_brace (c ∷ cs) = if c == b'}' then cs else behind_brace cs

-- A pattern with its parameter filled in.
unfoldable pub fill : Text → Text → Text
unfolding behind_brace
fill [] parameter = []
fill (c ∷ cs) parameter =
    let rest = fill cs parameter in if c == b'{' then parameter ++ behind_brace cs else c ∷ rest
