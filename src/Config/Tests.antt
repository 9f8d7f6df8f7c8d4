-- ===== src/Config/Tests.antt =====
-- Runs of internal/config/config.go on small files.
use autonomous_remediation_e.Prelude.{◌≡◌, ◌≢◌, refl, false, [], ◌∷◌, Bytes, codes, arith}
use autonomous_remediation_e.Prelude.Octets.{bytes_eq}
use autonomous_remediation_e.Prelude.Strings.{
  trim_space, trim_front, trim_back, is_space, has_prefix, has_suffix, index, without_prefix,
  natural, digits, signed_part, trim_prefix, or_whole,
}
use autonomous_remediation_e.Config.Yaml.{
  text, obj, arr, cons, nil, integer, end, field, LineInfo, strip_yaml_comment, strip_from,
  integer_of, number_or_text, is_quoted, parse_yaml_value, split_colon, split_at, is_item, nested,
  map_item, keyed_item, plain_item, item, item_key, entry, step, run_task, append_item, assign,
  split_lines, without_cr, all_short, line_infos, mapping, out_of_fuel, as_mapping, parse_lines,
  parse_basic_yaml,
}
use autonomous_remediation_e.Config.Yaml.Total.{parse_basic_yaml-total}
use autonomous_remediation_e.Config.Yaml.Dropped.{parse_lines-dropped}

abbrev file : Bytes
file = codes "port: 8080 # the port\npaths:\n  - path: /a\n    free: 15\n"

-- A map with a list of maps, and a comment.
parses :
    parse_basic_yaml (λ s. false) file
    ≡ mapping (
        field (codes "port") (integer false 8080) (
          field
            (codes "paths")
            (arr (
              cons
                (obj (
                  field
                    (codes "path")
                    (text (codes "/a"))
                    (field (codes "free") (integer false 15) end)))
                nil))
            end))
unfolding parse_basic_yaml strip_yaml_comment strip_from integer_of number_or_text is_quoted
    parse_yaml_value split_colon split_at is_item nested map_item keyed_item plain_item item
    item_key entry step run_task append_item assign split_lines without_cr all_short line_infos
    as_mapping parse_lines trim_space trim_front trim_back is_space has_prefix has_suffix index
    without_prefix natural digits signed_part trim_prefix or_whole bytes_eq
parses = refl

parse_basic_yaml-total_example : parse_basic_yaml (λ s. false) file ≢ out_of_fuel
parse_basic_yaml-total_example = parse_basic_yaml-total (λ s. false) file

abbrev address : LineInfo
address = record { indent = 0; text = codes "http_addr: here" }

abbrev secret : LineInfo
secret = record { indent = 2; text = codes "hmac_secret: key" }

parse_lines-dropped_example :
    parse_lines (λ s. false) (address ∷ secret ∷ [])
    ≡ mapping (field (codes "http_addr") (parse_yaml_value (λ s. false) (codes "here")) end)
unfolding is_item split_colon split_at trim_space trim_front trim_back is_space has_prefix index
    without_prefix bytes_eq
parse_lines-dropped_example =
    parse_lines-dropped (λ s. false) address secret [] (codes "http_addr") b'h' (codes "ere") refl
      refl (omega arith)
