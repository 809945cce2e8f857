-- ===== src/Sanitize/Tests.antt =====
-- Witnesses and tests for the cleaning of texts.
use omkit_python.Prelude.{
  ℕ, ◌≡◌, refl, Bool, true, false, ◌&&◌, Option, none, some, [], ◌==◌, nat_eq, leb, arith, All,
}
use omkit_python.Prelude.Text.{Text, codes, text_beq, text_eq}
use omkit_python.Json.{Value, null, str}
use omkit_python.Sanitize.{remove_blocks, remove_from, after, skip_to, exactly}
use omkit_python.Sanitize.Model.{sanitize_llm_output, sanitize_llm_response, extract_json, scan}
use omkit_python.Sanitize.Markup.{sanitize_html}
use omkit_python.Sanitize.Blocks.{remove_blocks_first}
use omkit_python.Sanitize.Html.{Inert, sanitize_html-Inert}
use omkit_python.Sanitize.Brackets.{balances, first_prefix, scan_first_balanced}

abbrev space : ℕ → Bool
space c = c == b' '

abbrev word : ℕ → Bool
word c = leb b'a' c && leb c b'z'

runs : Unit {0}
unfolding sanitize_llm_output sanitize_llm_response extract_json sanitize_html text_beq
runs = tt

sanitize_llm_output-think :
    sanitize_llm_output space word exactly (codes " a<think>b</think>c ") ≡ codes "ac"
unfolding runs
sanitize_llm_output-think = refl

-- What remains around a block can form a new one.
sanitize_llm_output-nested :
    sanitize_llm_output space word exactly (codes "<th<think></think>ink>b</think>")
    ≡ codes "<think>b</think>"
unfolding runs
sanitize_llm_output-nested = refl

sanitize_html-handler :
    sanitize_html space word exactly (codes "<p onclick=\"x()\">a</p>")
    ≡ codes "&lt;p &gt;a&lt;/p&gt;"
unfolding runs
sanitize_html-handler = refl

-- A `json.loads` that reads two texts.
abbrev loads : Text → Option Value
loads s = elim (s == codes "{\"a\": 1}") [
  | true ↦ some null
  | false ↦ elim (s == codes "{\"a\": \"}\"}") [ true ↦ some (str []) | false ↦ none ]
]

abbrev pretty : Value → Text
pretty v = codes "{\"a\": 1}"

extract_json-after :
    extract_json space word exactly loads pretty (codes "Here: {\"a\": 1} done") ≡ some null
unfolding runs
extract_json-after = refl

-- A closing bracket in a string ends the scan: the object is there, and is not found.
extract_json-string :
    extract_json space word exactly loads pretty (codes "Here: {\"a\": \"}\"} done") ≡ none
unfolding runs
extract_json-string = refl

sanitize_llm_response-fence :
    sanitize_llm_response space word exactly loads pretty (codes "x ```json a![i](u)b``` y")
    ≡ codes "ab"
unfolding runs
sanitize_llm_response-fence = refl

exactly_self : (c : ℕ) → exactly c c ≡ true
exactly_self c = ground arith

remove_blocks_first_example :
    remove_blocks exactly (codes "<a>") (codes "</a>") (codes "x<a>yz</a>b") ≡ codes "xb"
unfolding remove_blocks remove_from after skip_to
remove_blocks_first_example =
    remove_blocks_first exactly exactly_self b'<' b'<' (codes "a>") (codes "/a>") (codes "x")
      (codes "yz") (codes "b") (refl, tt) (refl, (refl, tt))

sanitize_html-Inert_example : All Inert (sanitize_html space word exactly (codes "<b>\"'"))
sanitize_html-Inert_example = sanitize_html-Inert space word exactly (codes "<b>\"'")

scan_first_balanced_example :
    scan space word exactly loads pretty b'{' b'}' 0 (codes "{{}}}")
    ≡ first_prefix (balances b'{' b'}' 0) (codes "{{}}}")
scan_first_balanced_example =
    scan_first_balanced space word exactly loads pretty b'{' b'}' (codes "{}}}") (omega arith)
