-- ===== src/Util/Tests.antt =====
-- Runs of tools/yarf_util.py.
use yarf.Common.{◌≡◌}
use yarf.Text.{codes, is_prefix, split, split_scan, upper_char}
use yarf.Util.{first2upper}
use yarf.Util.Camel.{first2upper_lem}

first2upper_lem_example : first2upper (codes "user_info_2") ≡ codes "UserInfo2"
unfolding split split_scan is_prefix upper_char
first2upper_lem_example = first2upper_lem (codes "user_info_2")
