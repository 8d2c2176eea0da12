-- ===== src/Ids/Consts.antt =====
-- The ids of angr_ghidra_core/ghidra_wire/ids.py that the modelled code names.
use angr_ghidra_core.Prelude.{ℕ}

abbrev pub elem_input : ℕ
elem_input = 2

abbrev pub elem_output : ℕ
elem_output = 4

abbrev pub elem_symbol : ℕ
elem_symbol = 6

abbrev pub elem_void : ℕ
elem_void = 10

abbrev pub elem_addr : ℕ
elem_addr = 11

abbrev pub elem_range : ℕ
elem_range = 12

abbrev pub elem_rangelist : ℕ
elem_rangelist = 13

abbrev pub elem_seqnum : ℕ
elem_seqnum = 15

abbrev pub elem_break : ℕ
elem_break = 17

abbrev pub elem_funcname : ℕ
elem_funcname = 19

abbrev pub elem_syntax : ℕ
elem_syntax = 24

abbrev pub elem_variable : ℕ
elem_variable = 26

abbrev pub elem_op : ℕ
elem_op = 27

abbrev pub elem_type : ℕ
elem_type = 60

abbrev pub elem_typeref : ℕ
elem_typeref = 63

abbrev pub elem_mapsym : ℕ
elem_mapsym = 76

abbrev pub elem_hole : ℕ
elem_hole = 74

abbrev pub elem_parent : ℕ
elem_parent = 77

abbrev pub elem_scope : ℕ
elem_scope = 80

abbrev pub elem_symbollist : ℕ
elem_symbollist = 81

abbrev pub elem_high : ℕ
elem_high = 82

abbrev pub elem_inst : ℕ
elem_inst = 98

abbrev pub elem_block : ℕ
elem_block = 103

abbrev pub elem_blockedge : ℕ
elem_blockedge = 104

abbrev pub elem_edge : ℕ
elem_edge = 105

abbrev pub elem_parammeasures : ℕ
elem_parammeasures = 106

abbrev pub elem_proto : ℕ
elem_proto = 107

abbrev pub elem_rank : ℕ
elem_rank = 108

abbrev pub elem_ast : ℕ
elem_ast = 115

abbrev pub elem_function : ℕ
elem_function = 116

abbrev pub elem_highlist : ℕ
elem_highlist = 117

abbrev pub elem_varnodes : ℕ
elem_varnodes = 119

abbrev pub elem_prototype : ℕ
elem_prototype = 169

abbrev pub elem_returnsym : ℕ
elem_returnsym = 172

abbrev pub elem_localdb : ℕ
elem_localdb = 228

abbrev pub elem_doc : ℕ
elem_doc = 229

abbrev pub elem_command_isnameused : ℕ
elem_command_isnameused = 239

abbrev pub elem_command_getbytes : ℕ
elem_command_getbytes = 240

abbrev pub elem_command_getcallfixup : ℕ
elem_command_getcallfixup = 241

abbrev pub elem_command_getcallmech : ℕ
elem_command_getcallmech = 242

abbrev pub elem_command_getcallotherfixup : ℕ
elem_command_getcallotherfixup = 243

abbrev pub elem_command_getcodelabel : ℕ
elem_command_getcodelabel = 244

abbrev pub elem_command_getcomments : ℕ
elem_command_getcomments = 245

abbrev pub elem_command_getcpoolref : ℕ
elem_command_getcpoolref = 246

abbrev pub elem_command_getdatatype : ℕ
elem_command_getdatatype = 247

abbrev pub elem_command_getexternalref : ℕ
elem_command_getexternalref = 248

abbrev pub elem_command_getmappedsymbols : ℕ
elem_command_getmappedsymbols = 249

abbrev pub elem_command_getnamespacepath : ℕ
elem_command_getnamespacepath = 250

abbrev pub elem_command_getpcode : ℕ
elem_command_getpcode = 251

abbrev pub elem_command_getpcodeexecutable : ℕ
elem_command_getpcodeexecutable = 252

abbrev pub elem_command_getregister : ℕ
elem_command_getregister = 253

abbrev pub elem_command_getregistername : ℕ
elem_command_getregistername = 254

abbrev pub elem_command_getstringdata : ℕ
elem_command_getstringdata = 255

abbrev pub elem_command_gettrackedregisters : ℕ
elem_command_gettrackedregisters = 256

abbrev pub elem_command_getuseropname : ℕ
elem_command_getuseropname = 257

abbrev pub attrib_content : ℕ
attrib_content = 1

abbrev pub attrib_extrapop : ℕ
attrib_extrapop = 6

abbrev pub attrib_id : ℕ
attrib_id = 9

abbrev pub attrib_index : ℕ
attrib_index = 10

abbrev pub attrib_model : ℕ
attrib_model = 13

abbrev pub attrib_name : ℕ
attrib_name = 14

abbrev pub attrib_namelock : ℕ
attrib_namelock = 15

abbrev pub attrib_offset : ℕ
attrib_offset = 16

abbrev pub attrib_ref : ℕ
attrib_ref = 18

abbrev pub attrib_size : ℕ
attrib_size = 19

abbrev pub attrib_space : ℕ
attrib_space = 20

abbrev pub attrib_typelock : ℕ
attrib_typelock = 23

abbrev pub attrib_val : ℕ
attrib_val = 24

abbrev pub attrib_readonly : ℕ
attrib_readonly = 17

abbrev pub attrib_first : ℕ
attrib_first = 27

abbrev pub attrib_last : ℕ
attrib_last = 28

abbrev pub attrib_uniq : ℕ
attrib_uniq = 29

abbrev pub attrib_addrtied : ℕ
attrib_addrtied = 30

abbrev pub attrib_color : ℕ
attrib_color = 37

abbrev pub attrib_indent : ℕ
attrib_indent = 38

abbrev pub attrib_opref : ℕ
attrib_opref = 41

abbrev pub attrib_varref : ℕ
attrib_varref = 42

abbrev pub attrib_code : ℕ
attrib_code = 43

abbrev pub attrib_cat : ℕ
attrib_cat = 61

abbrev pub attrib_class : ℕ
attrib_class = 66

abbrev pub attrib_repref : ℕ
attrib_repref = 67

abbrev pub attrib_symref : ℕ
attrib_symref = 68

abbrev pub attrib_end : ℕ
attrib_end = 77

abbrev pub attrib_rev : ℕ
attrib_rev = 79

abbrev pub attrib_lock : ℕ
attrib_lock = 133

abbrev pub attrib_main : ℕ
attrib_main = 134

abbrev pub elem_tracked_pointset : ℕ
elem_tracked_pointset = 125

abbrev pub elem_commentdb : ℕ
elem_commentdb = 87

abbrev pub elem_val : ℕ
elem_val = 8
