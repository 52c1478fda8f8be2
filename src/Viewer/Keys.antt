-- ===== src/Viewer/Keys.antt =====
-- `ImGui_ImplGlfw_KeyToImGuiKey` of client/Source/pe/NetworkInput.cpp.
pub mod Codes
pub mod Inverse
use Codes.{GlfwKey, ImGuiKey}

-- The switch. The scan code is not used.
unfoldable pub key_to_imgui : GlfwKey → ImGuiKey
key_to_imgui GlfwKey.tab = ImGuiKey.tab
key_to_imgui GlfwKey.left = ImGuiKey.left_arrow
key_to_imgui GlfwKey.right = ImGuiKey.right_arrow
key_to_imgui GlfwKey.up = ImGuiKey.up_arrow
key_to_imgui GlfwKey.down = ImGuiKey.down_arrow
key_to_imgui GlfwKey.page_up = ImGuiKey.page_up
key_to_imgui GlfwKey.page_down = ImGuiKey.page_down
key_to_imgui GlfwKey.home = ImGuiKey.home
key_to_imgui GlfwKey.end = ImGuiKey.end
key_to_imgui GlfwKey.insert = ImGuiKey.insert
key_to_imgui GlfwKey.delete = ImGuiKey.delete
key_to_imgui GlfwKey.backspace = ImGuiKey.backspace
key_to_imgui GlfwKey.space = ImGuiKey.space
key_to_imgui GlfwKey.enter = ImGuiKey.enter
key_to_imgui GlfwKey.escape = ImGuiKey.escape
key_to_imgui GlfwKey.apostrophe = ImGuiKey.apostrophe
key_to_imgui GlfwKey.comma = ImGuiKey.comma
key_to_imgui GlfwKey.minus = ImGuiKey.minus
key_to_imgui GlfwKey.period = ImGuiKey.period
key_to_imgui GlfwKey.slash = ImGuiKey.slash
key_to_imgui GlfwKey.semicolon = ImGuiKey.semicolon
key_to_imgui GlfwKey.equal = ImGuiKey.equal
key_to_imgui GlfwKey.left_bracket = ImGuiKey.left_bracket
key_to_imgui GlfwKey.backslash = ImGuiKey.backslash
key_to_imgui GlfwKey.right_bracket = ImGuiKey.right_bracket
key_to_imgui GlfwKey.grave_accent = ImGuiKey.grave_accent
key_to_imgui GlfwKey.caps_lock = ImGuiKey.caps_lock
key_to_imgui GlfwKey.scroll_lock = ImGuiKey.scroll_lock
key_to_imgui GlfwKey.num_lock = ImGuiKey.num_lock
key_to_imgui GlfwKey.print_screen = ImGuiKey.print_screen
key_to_imgui GlfwKey.pause = ImGuiKey.pause
key_to_imgui GlfwKey.kp_0 = ImGuiKey.keypad_0
key_to_imgui GlfwKey.kp_1 = ImGuiKey.keypad_1
key_to_imgui GlfwKey.kp_2 = ImGuiKey.keypad_2
key_to_imgui GlfwKey.kp_3 = ImGuiKey.keypad_3
key_to_imgui GlfwKey.kp_4 = ImGuiKey.keypad_4
key_to_imgui GlfwKey.kp_5 = ImGuiKey.keypad_5
key_to_imgui GlfwKey.kp_6 = ImGuiKey.keypad_6
key_to_imgui GlfwKey.kp_7 = ImGuiKey.keypad_7
key_to_imgui GlfwKey.kp_8 = ImGuiKey.keypad_8
key_to_imgui GlfwKey.kp_9 = ImGuiKey.keypad_9
key_to_imgui GlfwKey.kp_decimal = ImGuiKey.keypad_decimal
key_to_imgui GlfwKey.kp_divide = ImGuiKey.keypad_divide
key_to_imgui GlfwKey.kp_multiply = ImGuiKey.keypad_multiply
key_to_imgui GlfwKey.kp_subtract = ImGuiKey.keypad_subtract
key_to_imgui GlfwKey.kp_add = ImGuiKey.keypad_add
key_to_imgui GlfwKey.kp_enter = ImGuiKey.keypad_enter
key_to_imgui GlfwKey.kp_equal = ImGuiKey.keypad_equal
key_to_imgui GlfwKey.left_shift = ImGuiKey.left_shift
key_to_imgui GlfwKey.left_control = ImGuiKey.left_ctrl
key_to_imgui GlfwKey.left_alt = ImGuiKey.left_alt
key_to_imgui GlfwKey.left_super = ImGuiKey.left_super
key_to_imgui GlfwKey.right_shift = ImGuiKey.right_shift
key_to_imgui GlfwKey.right_control = ImGuiKey.right_ctrl
key_to_imgui GlfwKey.right_alt = ImGuiKey.right_alt
key_to_imgui GlfwKey.right_super = ImGuiKey.right_super
key_to_imgui GlfwKey.menu = ImGuiKey.menu
key_to_imgui GlfwKey.key_0 = ImGuiKey.key_0
key_to_imgui GlfwKey.key_1 = ImGuiKey.key_1
key_to_imgui GlfwKey.key_2 = ImGuiKey.key_2
key_to_imgui GlfwKey.key_3 = ImGuiKey.key_3
key_to_imgui GlfwKey.key_4 = ImGuiKey.key_4
key_to_imgui GlfwKey.key_5 = ImGuiKey.key_5
key_to_imgui GlfwKey.key_6 = ImGuiKey.key_6
key_to_imgui GlfwKey.key_7 = ImGuiKey.key_7
key_to_imgui GlfwKey.key_8 = ImGuiKey.key_8
key_to_imgui GlfwKey.key_9 = ImGuiKey.key_9
key_to_imgui GlfwKey.key_a = ImGuiKey.key_a
key_to_imgui GlfwKey.key_b = ImGuiKey.key_b
key_to_imgui GlfwKey.key_c = ImGuiKey.key_c
key_to_imgui GlfwKey.key_d = ImGuiKey.key_d
key_to_imgui GlfwKey.key_e = ImGuiKey.key_e
key_to_imgui GlfwKey.key_f = ImGuiKey.key_f
key_to_imgui GlfwKey.key_g = ImGuiKey.key_g
key_to_imgui GlfwKey.key_h = ImGuiKey.key_h
key_to_imgui GlfwKey.key_i = ImGuiKey.key_i
key_to_imgui GlfwKey.key_j = ImGuiKey.key_j
key_to_imgui GlfwKey.key_k = ImGuiKey.key_k
key_to_imgui GlfwKey.key_l = ImGuiKey.key_l
key_to_imgui GlfwKey.key_m = ImGuiKey.key_m
key_to_imgui GlfwKey.key_n = ImGuiKey.key_n
key_to_imgui GlfwKey.key_o = ImGuiKey.key_o
key_to_imgui GlfwKey.key_p = ImGuiKey.key_p
key_to_imgui GlfwKey.key_q = ImGuiKey.key_q
key_to_imgui GlfwKey.key_r = ImGuiKey.key_r
key_to_imgui GlfwKey.key_s = ImGuiKey.key_s
key_to_imgui GlfwKey.key_t = ImGuiKey.key_t
key_to_imgui GlfwKey.key_u = ImGuiKey.key_u
key_to_imgui GlfwKey.key_v = ImGuiKey.key_v
key_to_imgui GlfwKey.key_w = ImGuiKey.key_w
key_to_imgui GlfwKey.key_x = ImGuiKey.key_x
key_to_imgui GlfwKey.key_y = ImGuiKey.key_y
key_to_imgui GlfwKey.key_z = ImGuiKey.key_z
key_to_imgui GlfwKey.f1 = ImGuiKey.f1
key_to_imgui GlfwKey.f2 = ImGuiKey.f2
key_to_imgui GlfwKey.f3 = ImGuiKey.f3
key_to_imgui GlfwKey.f4 = ImGuiKey.f4
key_to_imgui GlfwKey.f5 = ImGuiKey.f5
key_to_imgui GlfwKey.f6 = ImGuiKey.f6
key_to_imgui GlfwKey.f7 = ImGuiKey.f7
key_to_imgui GlfwKey.f8 = ImGuiKey.f8
key_to_imgui GlfwKey.f9 = ImGuiKey.f9
key_to_imgui GlfwKey.f10 = ImGuiKey.f10
key_to_imgui GlfwKey.f11 = ImGuiKey.f11
key_to_imgui GlfwKey.f12 = ImGuiKey.f12
key_to_imgui GlfwKey.f13 = ImGuiKey.f13
key_to_imgui GlfwKey.f14 = ImGuiKey.f14
key_to_imgui GlfwKey.f15 = ImGuiKey.f15
key_to_imgui GlfwKey.f16 = ImGuiKey.f16
key_to_imgui GlfwKey.f17 = ImGuiKey.f17
key_to_imgui GlfwKey.f18 = ImGuiKey.f18
key_to_imgui GlfwKey.f19 = ImGuiKey.f19
key_to_imgui GlfwKey.f20 = ImGuiKey.f20
key_to_imgui GlfwKey.f21 = ImGuiKey.f21
key_to_imgui GlfwKey.f22 = ImGuiKey.f22
key_to_imgui GlfwKey.f23 = ImGuiKey.f23
key_to_imgui GlfwKey.f24 = ImGuiKey.f24
key_to_imgui (GlfwKey.other code) = ImGuiKey.no_key
