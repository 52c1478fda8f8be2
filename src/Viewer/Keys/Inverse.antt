-- ===== src/Viewer/Keys/Inverse.antt =====
-- The key that an ImGui key comes from: an independent reading of the switch, from right to left.
use nxdb.Common.{◌≡◌, ◌≢◌, refl, sym, ap, ◌∙◌, Option, none, some}
use nxdb.Viewer.Keys.Codes.{GlfwKey, ImGuiKey}
use nxdb.Viewer.Keys.{key_to_imgui}

key_of_imgui : ImGuiKey → Option GlfwKey
key_of_imgui ImGuiKey.tab = some GlfwKey.tab
key_of_imgui ImGuiKey.left_arrow = some GlfwKey.left
key_of_imgui ImGuiKey.right_arrow = some GlfwKey.right
key_of_imgui ImGuiKey.up_arrow = some GlfwKey.up
key_of_imgui ImGuiKey.down_arrow = some GlfwKey.down
key_of_imgui ImGuiKey.page_up = some GlfwKey.page_up
key_of_imgui ImGuiKey.page_down = some GlfwKey.page_down
key_of_imgui ImGuiKey.home = some GlfwKey.home
key_of_imgui ImGuiKey.end = some GlfwKey.end
key_of_imgui ImGuiKey.insert = some GlfwKey.insert
key_of_imgui ImGuiKey.delete = some GlfwKey.delete
key_of_imgui ImGuiKey.backspace = some GlfwKey.backspace
key_of_imgui ImGuiKey.space = some GlfwKey.space
key_of_imgui ImGuiKey.enter = some GlfwKey.enter
key_of_imgui ImGuiKey.escape = some GlfwKey.escape
key_of_imgui ImGuiKey.apostrophe = some GlfwKey.apostrophe
key_of_imgui ImGuiKey.comma = some GlfwKey.comma
key_of_imgui ImGuiKey.minus = some GlfwKey.minus
key_of_imgui ImGuiKey.period = some GlfwKey.period
key_of_imgui ImGuiKey.slash = some GlfwKey.slash
key_of_imgui ImGuiKey.semicolon = some GlfwKey.semicolon
key_of_imgui ImGuiKey.equal = some GlfwKey.equal
key_of_imgui ImGuiKey.left_bracket = some GlfwKey.left_bracket
key_of_imgui ImGuiKey.backslash = some GlfwKey.backslash
key_of_imgui ImGuiKey.right_bracket = some GlfwKey.right_bracket
key_of_imgui ImGuiKey.grave_accent = some GlfwKey.grave_accent
key_of_imgui ImGuiKey.caps_lock = some GlfwKey.caps_lock
key_of_imgui ImGuiKey.scroll_lock = some GlfwKey.scroll_lock
key_of_imgui ImGuiKey.num_lock = some GlfwKey.num_lock
key_of_imgui ImGuiKey.print_screen = some GlfwKey.print_screen
key_of_imgui ImGuiKey.pause = some GlfwKey.pause
key_of_imgui ImGuiKey.keypad_0 = some GlfwKey.kp_0
key_of_imgui ImGuiKey.keypad_1 = some GlfwKey.kp_1
key_of_imgui ImGuiKey.keypad_2 = some GlfwKey.kp_2
key_of_imgui ImGuiKey.keypad_3 = some GlfwKey.kp_3
key_of_imgui ImGuiKey.keypad_4 = some GlfwKey.kp_4
key_of_imgui ImGuiKey.keypad_5 = some GlfwKey.kp_5
key_of_imgui ImGuiKey.keypad_6 = some GlfwKey.kp_6
key_of_imgui ImGuiKey.keypad_7 = some GlfwKey.kp_7
key_of_imgui ImGuiKey.keypad_8 = some GlfwKey.kp_8
key_of_imgui ImGuiKey.keypad_9 = some GlfwKey.kp_9
key_of_imgui ImGuiKey.keypad_decimal = some GlfwKey.kp_decimal
key_of_imgui ImGuiKey.keypad_divide = some GlfwKey.kp_divide
key_of_imgui ImGuiKey.keypad_multiply = some GlfwKey.kp_multiply
key_of_imgui ImGuiKey.keypad_subtract = some GlfwKey.kp_subtract
key_of_imgui ImGuiKey.keypad_add = some GlfwKey.kp_add
key_of_imgui ImGuiKey.keypad_enter = some GlfwKey.kp_enter
key_of_imgui ImGuiKey.keypad_equal = some GlfwKey.kp_equal
key_of_imgui ImGuiKey.left_shift = some GlfwKey.left_shift
key_of_imgui ImGuiKey.left_ctrl = some GlfwKey.left_control
key_of_imgui ImGuiKey.left_alt = some GlfwKey.left_alt
key_of_imgui ImGuiKey.left_super = some GlfwKey.left_super
key_of_imgui ImGuiKey.right_shift = some GlfwKey.right_shift
key_of_imgui ImGuiKey.right_ctrl = some GlfwKey.right_control
key_of_imgui ImGuiKey.right_alt = some GlfwKey.right_alt
key_of_imgui ImGuiKey.right_super = some GlfwKey.right_super
key_of_imgui ImGuiKey.menu = some GlfwKey.menu
key_of_imgui ImGuiKey.key_0 = some GlfwKey.key_0
key_of_imgui ImGuiKey.key_1 = some GlfwKey.key_1
key_of_imgui ImGuiKey.key_2 = some GlfwKey.key_2
key_of_imgui ImGuiKey.key_3 = some GlfwKey.key_3
key_of_imgui ImGuiKey.key_4 = some GlfwKey.key_4
key_of_imgui ImGuiKey.key_5 = some GlfwKey.key_5
key_of_imgui ImGuiKey.key_6 = some GlfwKey.key_6
key_of_imgui ImGuiKey.key_7 = some GlfwKey.key_7
key_of_imgui ImGuiKey.key_8 = some GlfwKey.key_8
key_of_imgui ImGuiKey.key_9 = some GlfwKey.key_9
key_of_imgui ImGuiKey.key_a = some GlfwKey.key_a
key_of_imgui ImGuiKey.key_b = some GlfwKey.key_b
key_of_imgui ImGuiKey.key_c = some GlfwKey.key_c
key_of_imgui ImGuiKey.key_d = some GlfwKey.key_d
key_of_imgui ImGuiKey.key_e = some GlfwKey.key_e
key_of_imgui ImGuiKey.key_f = some GlfwKey.key_f
key_of_imgui ImGuiKey.key_g = some GlfwKey.key_g
key_of_imgui ImGuiKey.key_h = some GlfwKey.key_h
key_of_imgui ImGuiKey.key_i = some GlfwKey.key_i
key_of_imgui ImGuiKey.key_j = some GlfwKey.key_j
key_of_imgui ImGuiKey.key_k = some GlfwKey.key_k
key_of_imgui ImGuiKey.key_l = some GlfwKey.key_l
key_of_imgui ImGuiKey.key_m = some GlfwKey.key_m
key_of_imgui ImGuiKey.key_n = some GlfwKey.key_n
key_of_imgui ImGuiKey.key_o = some GlfwKey.key_o
key_of_imgui ImGuiKey.key_p = some GlfwKey.key_p
key_of_imgui ImGuiKey.key_q = some GlfwKey.key_q
key_of_imgui ImGuiKey.key_r = some GlfwKey.key_r
key_of_imgui ImGuiKey.key_s = some GlfwKey.key_s
key_of_imgui ImGuiKey.key_t = some GlfwKey.key_t
key_of_imgui ImGuiKey.key_u = some GlfwKey.key_u
key_of_imgui ImGuiKey.key_v = some GlfwKey.key_v
key_of_imgui ImGuiKey.key_w = some GlfwKey.key_w
key_of_imgui ImGuiKey.key_x = some GlfwKey.key_x
key_of_imgui ImGuiKey.key_y = some GlfwKey.key_y
key_of_imgui ImGuiKey.key_z = some GlfwKey.key_z
key_of_imgui ImGuiKey.f1 = some GlfwKey.f1
key_of_imgui ImGuiKey.f2 = some GlfwKey.f2
key_of_imgui ImGuiKey.f3 = some GlfwKey.f3
key_of_imgui ImGuiKey.f4 = some GlfwKey.f4
key_of_imgui ImGuiKey.f5 = some GlfwKey.f5
key_of_imgui ImGuiKey.f6 = some GlfwKey.f6
key_of_imgui ImGuiKey.f7 = some GlfwKey.f7
key_of_imgui ImGuiKey.f8 = some GlfwKey.f8
key_of_imgui ImGuiKey.f9 = some GlfwKey.f9
key_of_imgui ImGuiKey.f10 = some GlfwKey.f10
key_of_imgui ImGuiKey.f11 = some GlfwKey.f11
key_of_imgui ImGuiKey.f12 = some GlfwKey.f12
key_of_imgui ImGuiKey.f13 = some GlfwKey.f13
key_of_imgui ImGuiKey.f14 = some GlfwKey.f14
key_of_imgui ImGuiKey.f15 = some GlfwKey.f15
key_of_imgui ImGuiKey.f16 = some GlfwKey.f16
key_of_imgui ImGuiKey.f17 = some GlfwKey.f17
key_of_imgui ImGuiKey.f18 = some GlfwKey.f18
key_of_imgui ImGuiKey.f19 = some GlfwKey.f19
key_of_imgui ImGuiKey.f20 = some GlfwKey.f20
key_of_imgui ImGuiKey.f21 = some GlfwKey.f21
key_of_imgui ImGuiKey.f22 = some GlfwKey.f22
key_of_imgui ImGuiKey.f23 = some GlfwKey.f23
key_of_imgui ImGuiKey.f24 = some GlfwKey.f24
key_of_imgui ImGuiKey.no_key = none

-- Every key but those that the switch does not name can be had back from its translation.
key_of_imgui-key_to_imgui :
    (k : GlfwKey) → key_to_imgui k ≢ ImGuiKey.no_key → key_of_imgui (key_to_imgui k) ≡ some k
unfolding key_of_imgui key_to_imgui
key_of_imgui-key_to_imgui (GlfwKey.other code) h = absurd (h refl)
key_of_imgui-key_to_imgui k h = refl

-- Two different keys of which the switch names one are two different keys of ImGui.
key_to_imgui_injective :
    (a b : GlfwKey) → key_to_imgui a ≢ ImGuiKey.no_key → key_to_imgui a ≡ key_to_imgui b → a ≡ b
key_to_imgui_injective a b h e =
    let back : some a ≡ some b =
      sym (key_of_imgui-key_to_imgui a h)
      ∙ ap key_of_imgui e
      ∙ key_of_imgui-key_to_imgui b (λ z. h (e ∙ z)) in
    cc
