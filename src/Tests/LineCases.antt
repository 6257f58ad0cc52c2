-- ===== src/Tests/LineCases.antt =====
-- The line reader of nsm.go at concrete inputs.
use argonaut.Nsm.Lines.Slices.{cut_line}
use argonaut.Nsm.Lines.Whole.{IsRead, read_nsm_line-IsRead}
use argonaut.Nsm.Lines.{
  Reader, eof, scan, read_slice, LineResult, line_read, no_line, read_nsm_line, nsm_line_looks_json,
}
use argonaut.Text.Trim.{trim_right}
use argonaut.Prelude.{◌≡◌, refl, true, false, [], some, codes, arith}

-- Two lines, the last one without a newline.
abbrev input : Reader
input = record { unread = codes "1 RND\r\n2 RND\r"; input_end = eof }

abbrev second_line : Reader
second_line = record { unread = codes "2 RND\r"; input_end = eof }

abbrev at_end : Reader
at_end = record { unread = []; input_end = eof }

reads_lines :
    (read_nsm_line 20 [] input ≡ some (line_read (codes "1 RND"), second_line))
    × (read_nsm_line 20 [] second_line ≡ some (line_read (codes "2 RND\r"), at_end))
    × (read_nsm_line 20 [] at_end ≡ some (no_line eof, at_end))
unfolding read_nsm_line read_slice scan trim_right
reads_lines = (refl, refl, refl)

looks : (nsm_line_looks_json (codes " \t{") ≡ true) × (nsm_line_looks_json (codes "1 {") ≡ false)
unfolding nsm_line_looks_json
looks = (refl, refl)

read_nsm_line-IsRead_example :
    (out : LineResult × Reader) × (read_nsm_line 20 [] input ≡ some out)
    × IsRead [] eof (cut_line (codes "1 RND\r\n2 RND\r")) out
read_nsm_line-IsRead_example = read_nsm_line-IsRead 20 input (omega arith)
